-- ===== src/Index.antt =====
-- The primary index of one store, mkdb/db/storage/index_manager.py: the class `IndexManager`, with
-- the text of its `.idx` file. Which of the two file names holds it is not modelled: `file` is the
-- text at `index_path`, `none` where there is no file. Rebuilding the index from the log files,
-- which the code does where there is no file, is in Index/Bootstrap.antt.
pub mod Format
pub mod Replay
pub mod Durable
pub mod Reload
pub mod Colon
pub mod Bootstrap
pub mod Rebuild
use mk_db.Base.{
  ℕ, Text, List, [], ◌∷◌, ◌++◌, Option, none, some, Bool, true, false, Dict, put, remove, keys,
  contains, text_key, text_discrete, ite, split, strip, lines, show, int, ok, ◌>>=◌, or_raise,
  value_error, test, if◌then◌else◌, unlines, ◌==◌,
}
use mk_db.Base.Dicts
use mk_db.Base.Result.{Result}

-- Where a record is: the segment ("001", or "blobs/ID.dat"), the offset and the size in bytes.
pub record Entry : Type 0 where
  pub segment_seq : Text
  pub offset : ℕ
  pub size : ℕ

pub record Index : Type 0 where
  pub map : Dict Text Entry
  pub dirty : Bool
  pub file : Option Text

-- `f"{record_id}:{seg}:{offset}:{size}"`
unfoldable pub entry_line : Text → Entry → Text
entry_line id e = id ++ (b':' ∷ (e.segment_seq ++ (b':' ∷ (show e.offset ++ (b':' ∷ show e.size)))))

-- `":".join(parts)`
unfoldable pub join : ℕ → List Text → Text
join sep [] = []
join sep (p ∷ []) = p
join sep (p ∷ q ∷ ps) = p ++ (sep ∷ join sep (q ∷ ps))

-- `parts[:-2]`, `parts[-2]` and `parts[-1]` where there are two parts or more.
unfoldable pub last_two : List Text → Option (List Text × Text × Text)
last_two [] = none
last_two (a ∷ []) = none
last_two (a ∷ b ∷ []) = some ([], a, b)
last_two (a ∷ b ∷ c ∷ ps) = elim (last_two (b ∷ c ∷ ps)) [
  | none ↦ none
  | some (front, y, z) ↦ some (a ∷ front, y, z)
]

-- A line of four parts or more, with the first part taken off; fewer are skipped.
unfoldable pub load_parts :
    Text → Option (List Text × Text × Text) → Dict Text Entry → Result (Dict Text Entry)
unfolding join
load_parts id none m = ok m
load_parts id (some ([], y, z)) m = ok m
load_parts id (some (p ∷ ps, y, z)) m = do
  size ← or_raise value_error (int z)
  offset ← or_raise value_error (int y)
  ok (put id (record { segment_seq = join b':' (p ∷ ps); offset = offset; size = size }) m)

-- What stands before the first separator.
unfoldable pub first_part : List Text → Text
first_part [] = []
first_part (p ∷ ps) = p

unfoldable pub load_entry : List Text → Dict Text Entry → Result (Dict Text Entry)
unfolding load_parts last_two
load_entry [] m = ok m
load_entry (id ∷ ps) m = load_parts id (last_two ps) m

-- One line of the file, white space stripped: blank, a tombstone, or an entry.
unfoldable pub load_stripped : Text → Dict Text Entry → Result (Dict Text Entry)
unfolding load_entry first_part split
load_stripped [] m = ok m
load_stripped (c ∷ s) m =
    if c == b'!'
    then ok (remove (first_part (split b':' s)) m)
    else load_entry (split b':' (c ∷ s)) m

unfoldable pub load_lines : List Text → Dict Text Entry → Result (Dict Text Entry)
unfolding load_stripped strip
load_lines [] m = ok m
load_lines (l ∷ ls) m = load_stripped (strip l) m >>= load_lines ls

-- `load` of a file that exists, into an empty map.
unfoldable pub load : Text → Result (Dict Text Entry)
unfolding load_lines lines
load text = load_lines (lines text) []

unfoldable pub entry_lines : Dict Text Entry → List Text
unfolding entry_line
entry_lines [] = []
entry_lines ((id, e) ∷ m) = entry_line id e ∷ entry_lines m

unfoldable pub save_full : Index → Index
unfolding entry_lines unlines
save_full s = record s { dirty = false; file = some (unlines (entry_lines s.map)) }

unfoldable pub get : Text → Index → Option Entry
get id s = Dicts.get id s.map

-- A file opened for appending is made if it is not there.
unfoldable pub append_line : Text → Option Text → Option Text
append_line l none = some (l ++ (10 ∷ []))
append_line l (some text) = some (text ++ (l ++ (10 ∷ [])))

unfoldable pub set : Text → Entry → Index → Index
unfolding append_line entry_line
set id e s = record {
  map = put id e s.map;
  dirty = true;
  file = append_line (entry_line id e) s.file;
}

unfoldable pub delete : Text → Index → Index
unfolding append_line entry_line
delete id s = elim (Dicts.get id s.map) [
  | none ↦ s
  | some e ↦ record {
    map = remove id s.map;
    dirty = true;
    file = append_line (b'!' ∷ entry_line id e) s.file;
  }
]

unfoldable pub all_record_ids : Index → List Text
all_record_ids s = keys s.map

-- The ids whose entry lies in the segment, in the order of the map.
unfoldable pub ids_in : Text → Dict Text Entry → List Text
ids_in seq [] = []
ids_in seq ((id, e) ∷ m) =
    let rest = ids_in seq m in ite (text_discrete e.segment_seq seq) (id ∷ rest) rest

unfoldable pub records_in_segment : Text → Index → List Text
unfolding ids_in
records_in_segment seq s = ids_in seq s.map
