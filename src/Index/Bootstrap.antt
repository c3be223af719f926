-- ===== src/Index/Bootstrap.antt =====
-- The index of a store that is opened, mkdb/db/storage/index_manager.py: `__init__`, and
-- `_bootstrap_from_logs`, which reads the log files where there is no index file. `lossy` is
-- `decode("utf-8", errors="replace")`.
use mk_db.Base.{
  ℕ, ◌+◌, Text, List, [], ◌∷◌, Option, none, some, Bool, false, Dict, put, keys, text_key, ok,
  ◌>>=◌, if◌then◌else◌, ltb, ◌==◌, ◌&&◌, ◌||◌, leb, length, show_03d,
}
use mk_db.Base.Dicts
use mk_db.Base.Result.{Result}
use mk_db.Codec.{Codec, Bytes}
use mk_db.Serializer.{deserialize_record}
use mk_db.Log.{match_segment, content}
use mk_db.Index.{Index, Entry, load, save_full}

unfoldable pub cons_first : ℕ → List Bytes → List Bytes
cons_first b [] = (b ∷ []) ∷ []
cons_first b (l ∷ ls) = (b ∷ l) ∷ ls

-- A byte before the lines of the rest: "\n" is a line of its own there.
unfoldable pub add_byte : ℕ → List Bytes → List Bytes
unfolding cons_first
add_byte b ls = if b == 10 then (b ∷ []) ∷ ls else cons_first b ls

-- The lines of a binary file, each with its "\n".
unfoldable pub byte_lines : Bytes → List Bytes
unfolding add_byte
byte_lines [] = []
byte_lines (b ∷ bs) = add_byte b (byte_lines bs)

-- A line with an id that is not empty is an entry.
unfoldable pub index_line : Text → ℕ → ℕ → Option Text → Dict Text Entry → Dict Text Entry
index_line seq offset size none m = m
index_line seq offset size (some []) m = m
index_line seq offset size (some (x ∷ id)) m =
    put (x ∷ id) (record { segment_seq = seq; offset = offset; size = size }) m

-- The loop over the lines of one log file.
unfoldable pub index_lines :
    Codec → (Bytes → Text) → Text → ℕ → List Bytes → Dict Text Entry → Dict Text Entry
unfolding index_line
index_lines c lossy seq offset [] m = m
index_lines c lossy seq offset (l ∷ ls) m =
    index_lines c lossy seq (offset + length l) ls
      (index_line seq offset (length l) (deserialize_record c (lossy l)).0 m)

-- `log_files.sort()`. Two names of one number differ in a "\n" at the end.
abbrev comes_first : ℕ × Text → ℕ × Text → Bool
comes_first (n, name) (m, other) = ltb n m || (n == m && leb (length name) (length other))

unfoldable insert_file : ℕ × Text → List (ℕ × Text) → List (ℕ × Text)
insert_file f [] = f ∷ []
insert_file f (g ∷ gs) = if comes_first f g then f ∷ g ∷ gs else g ∷ insert_file f gs

unfoldable log_files : Text → List Text → List (ℕ × Text)
unfolding match_segment insert_file
log_files service [] = []
log_files service (name ∷ names) = elim (match_segment service name) [
  | none ↦ log_files service names
  | some n ↦ insert_file (n, name) (log_files service names)
]

-- The loop over the log files.
unfoldable index_files :
    Codec → (Bytes → Text) → Dict Text Bytes → List (ℕ × Text) → Dict Text Entry → Dict Text Entry
unfolding index_lines byte_lines
index_files c lossy files [] m = m
index_files c lossy files ((n, name) ∷ rest) m =
    index_files c lossy files rest
      (index_lines c lossy (show_03d n) 0 (byte_lines (content (Dicts.get name files))) m)

unfoldable bootstrap_files : Codec → (Bytes → Text) → Dict Text Bytes → List (ℕ × Text) → Index
unfolding index_files save_full
bootstrap_files c lossy files [] = record { map = []; dirty = false; file = none }
bootstrap_files c lossy files (f ∷ fs) =
    save_full (record { map = index_files c lossy files (f ∷ fs) []; dirty = false; file = none })

-- `_bootstrap_from_logs`
unfoldable bootstrap : Codec → (Bytes → Text) → Text → Dict Text Bytes → Index
unfolding bootstrap_files log_files
bootstrap c lossy service files = bootstrap_files c lossy files (log_files service (keys files))

-- `__init__`: `load` of the file at `index_path`, or of the log files.
unfoldable pub open_index :
    Codec → (Bytes → Text) → Text → Option Text → Dict Text Bytes → Result Index
unfolding bootstrap load
open_index c lossy service none files = ok (bootstrap c lossy service files)
open_index c lossy service (some text) files = do
  map ← load text
  ok (record { map = map; dirty = false; file = some text })
