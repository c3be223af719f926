-- ===== src/FullText.antt =====
-- The inverted index of one text field, mkdb/db/query/full_text_index.py: the class `FullTextIndex`. Its
-- file is the text at `path`, with `none` where there is no file.
pub mod Words
pub mod Buffers
use mk_db.Base.{
  ℕ, ◌≡◌, Text, List, [], ◌∷◌, ◌++◌, Option, none, some, Bool, true, false, Dict, put, text_key,
  ltb, if◌then◌else◌, ◌&&◌, length, lines,
}
use mk_db.Base.Dicts
use mk_db.Base.Sets.{add, union, inter}
use mk_db.Codec.{Codec}
use mk_db.IndexFile.{index_line, parse_line}
use mk_db.Postings.{ids_or_empty, add_at, union_at, discard_at, minus_at}
use mk_db.Tokenizer.{tokenize}

-- The set of ids of each stem.
abbrev pub Stems : Type 0
Stems = Dict Text (List Text)

pub record FullText : Type 0 where
  pub map : Stems
  pub in_ram : Bool
  pub ram_threshold : ℕ
  -- Used where `in_ram` is false.
  pub add_buf : Stems
  pub remove_buf : Stems
  pub file : Option Text

unfoldable pub load_lines : List Text → Stems → Stems
load_lines [] m = m
load_lines (raw ∷ raws) m = elim (parse_line raw) [
  | none ↦ load_lines raws m
  | some (stem, ids) ↦ load_lines raws (put stem ids m)
]

-- `_load_disk_map`
unfoldable pub load_disk_map : Option Text → Stems
unfolding load_lines
load_disk_map none = []
load_disk_map (some text) = load_lines (lines text) []

unfoldable pub file_lines : Stems → Text
unfolding index_line
file_lines [] = []
file_lines ((stem, []) ∷ m) = file_lines m
file_lines ((stem, id ∷ ids) ∷ m) = index_line stem (id ∷ ids) ++ file_lines m

-- `_write_file`
unfoldable pub write_file : Stems → FullText → FullText
unfolding file_lines
write_file m x = record x { file = some (file_lines m) }

abbrev pub file_size : Codec → Option Text → ℕ
file_size c none = 0
file_size c (some text) = length (c.encode text)

-- A threshold of 0 is none; a file that is not there has no size.
unfoldable pub apply_threshold : Codec → FullText → FullText
apply_threshold c x =
    if ltb 0 x.ram_threshold && ltb x.ram_threshold (file_size c x.file)
    then record x { map = []; in_ram = false }
    else x

-- `__init__` with `load`: a file that is there is read.
unfoldable pub init : Codec → ℕ → Option Text → FullText
unfolding load_disk_map apply_threshold
init c threshold file = elim file [
  | none ↦ record {
    map = [];
    in_ram = true;
    ram_threshold = threshold;
    add_buf = [];
    remove_buf = [];
    file = none;
  }
  | some text ↦ apply_threshold c (record {
    map = load_disk_map (some text);
    in_ram = true;
    ram_threshold = threshold;
    add_buf = [];
    remove_buf = [];
    file = some text;
  })
]

unfoldable pub union_all : Stems → Stems → Stems
union_all [] m = m
union_all ((stem, ids) ∷ buf) m = union_all buf (union_at stem ids m)

unfoldable pub minus_all : Stems → Stems → Stems
minus_all [] m = m
minus_all ((stem, ids) ∷ buf) m = minus_all buf (minus_at stem ids m)

-- The additions first, then the removals.
unfoldable pub merge_buffers : Stems → Stems → Stems → Stems
unfolding union_all minus_all
merge_buffers adds removes m = minus_all removes (union_all adds m)

abbrev is_empty : Stems → Bool
is_empty [] = true
is_empty (_ ∷ _) = false

-- `_flush_pending`
unfoldable pub flush_pending : FullText → FullText
unfolding write_file merge_buffers load_disk_map
flush_pending x =
    if is_empty x.add_buf && is_empty x.remove_buf
    then x
    else record (write_file (merge_buffers x.add_buf x.remove_buf (load_disk_map x.file)) x) {
      add_buf = [];
      remove_buf = [];
    }

unfoldable pub save : Codec → FullText → FullText
unfolding write_file apply_threshold flush_pending
save c x = if x.in_ram then apply_threshold c (write_file x.map x) else flush_pending x

unfoldable pub add_all : List Text → Text → Stems → Stems
add_all [] id m = m
add_all (stem ∷ stems) id m = add_all stems id (add_at stem id m)

unfoldable pub discard_all : List Text → Text → Stems → Stems
discard_all [] id m = m
discard_all (stem ∷ stems) id m = discard_all stems id (discard_at stem id m)

-- `add`
unfoldable pub add_text : (Text → Text) → Text → Text → FullText → FullText
unfolding add_all
add_text lower id text x =
    if x.in_ram
    then record x { map = add_all (tokenize lower text) id x.map }
    else record x { add_buf = add_all (tokenize lower text) id x.add_buf }

-- `remove`
unfoldable pub remove_text : (Text → Text) → Text → Text → FullText → FullText
unfolding add_all discard_all
remove_text lower id text x =
    if x.in_ram
    then record x { map = discard_all (tokenize lower text) id x.map }
    else record x { remove_buf = add_all (tokenize lower text) id x.remove_buf }

-- The ids of any of the stems.
unfoldable pub ids_of_stems : List Text → Stems → List Text
ids_of_stems [] m = []
ids_of_stems (stem ∷ stems) m = union (ids_or_empty (Dicts.get stem m)) (ids_of_stems stems m)

-- Those of all keywords after the first, and those of any.
unfoldable pub inter_keywords : (Text → Text) → List Text → List Text → Stems → List Text
inter_keywords lower [] result m = result
inter_keywords lower (kw ∷ kws) result m =
    inter_keywords lower kws (inter result (ids_of_stems (tokenize lower kw) m)) m

unfoldable pub union_keywords : (Text → Text) → List Text → List Text → Stems → List Text
union_keywords lower [] result m = result
union_keywords lower (kw ∷ kws) result m =
    union_keywords lower kws (union result (ids_of_stems (tokenize lower kw) m)) m

-- `search` in a map, in the mode "and" or "or".
unfoldable pub search_map : (Text → Text) → Bool → List Text → Stems → List Text
unfolding ids_of_stems inter_keywords union_keywords
search_map lower and_mode [] m = []
search_map lower and_mode (kw ∷ kws) m =
    if and_mode
    then inter_keywords lower kws (ids_of_stems (tokenize lower kw) m) m
    else union_keywords lower (kw ∷ kws) [] m

-- `search`, and the index after it: the buffers are flushed where the map is not in memory.
unfoldable pub search : (Text → Text) → Bool → List Text → FullText → List Text × FullText
unfolding search_map flush_pending
search lower and_mode [] x = ([], x)
search lower and_mode (kw ∷ kws) x =
    if x.in_ram
    then (search_map lower and_mode (kw ∷ kws) x.map, x)
    else (let flushed = flush_pending x in
        (search_map lower and_mode (kw ∷ kws) (load_disk_map flushed.file), flushed))
