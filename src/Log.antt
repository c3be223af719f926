-- ===== src/Log.antt =====
-- The rolling log of one store, mkdb/db/storage/log_manager.py: the class `LogManager`, over the
-- files of the store's directory. Nothing else writes the active segment, so the place where its
-- handle, opened with "ab", writes is the end of the file.
pub mod Segments
pub mod Append
use mk_db.Base.{
  ℕ, ◌+◌, Text, List, [], ◌∷◌, ◌++◌, Option, none, some, Bool, true, false, Dict, put, contains,
  keys, text_key, show_03d, int, ltb, leb, ◌==◌, ◌&&◌, if◌then◌else◌, length, take, drop, ok, raise,
  ◌>>=◌, or_raise, value_error, os_error, codes, text_discrete, test,
}
use mk_db.Base.Dicts
use mk_db.Base.Result.{Result}
use mk_db.Codec.{Codec, Bytes}

pub record Log : Type 0 where
  pub service : Text
  pub segment_threshold : ℕ
  pub active_segment : ℕ
  -- The files of the directory, by their names in it.
  pub files : Dict Text Bytes

-- `segment_path`, within the directory.
unfoldable pub segment_name : Text → ℕ → Text
segment_name service n = service ++ (b'_' ∷ (show_03d n ++ codes ".log"))

-- What is left of a text behind a prefix.
unfoldable pub strip_prefix : Text → Text → Option Text
strip_prefix [] s = some s
strip_prefix (p ∷ ps) [] = none
strip_prefix (p ∷ ps) (c ∷ s) = let rest = strip_prefix ps s in if p == c then rest else none

abbrev pub is_digit : ℕ → Bool
is_digit c = leb 48 c && leb c 57

-- `(\d{3})\.log$` on ASCII digits: three digits, then ".log" at the end or before a last "\n".
unfoldable pub match_number : Text → Option ℕ
match_number (a ∷ b ∷ c ∷ rest) =
    if is_digit a && is_digit b && is_digit c
    then if test (text_discrete rest (codes ".log"))
      then int (a ∷ b ∷ c ∷ [])
      else if test (text_discrete rest (codes ".log" ++ (10 ∷ [])))
      then int (a ∷ b ∷ c ∷ [])
      else none
    else none
match_number _ = none

-- `pattern.match(name)`, with the number.
unfoldable pub match_segment : Text → Text → Option ℕ
unfolding strip_prefix match_number
match_segment service name = elim (strip_prefix (service ++ (b'_' ∷ [])) name) [
  | none ↦ none
  | some rest ↦ match_number rest
]

unfoldable highest_of : Text → ℕ → List Text → ℕ
highest_of service highest [] = highest
highest_of service highest (name ∷ names) = elim (match_segment service name) [
  | none ↦ highest_of service highest names
  | some n ↦ highest_of service (if ltb highest n then n else highest) names
]

-- A file opened with "ab" is made if it is not there.
unfoldable pub open_append : Text → Dict Text Bytes → Dict Text Bytes
open_append name files = if contains name files then files else put name [] files

-- `__init__`: goes on with the highest segment, or makes the first.
unfoldable pub init : Text → ℕ → Dict Text Bytes → Log
unfolding highest_of match_segment open_append segment_name
init service threshold files =
    let highest = highest_of service 0 (keys files) in
    let active = if highest == 0 then 1 else highest in
    record {
      service = service;
      segment_threshold = threshold;
      active_segment = active;
      files = open_append (segment_name service active) files;
    }

unfoldable pub rollover : Log → Log
unfolding open_append segment_name
rollover l = record l {
  active_segment = l.active_segment + 1;
  files = open_append (segment_name l.service (l.active_segment + 1)) l.files;
}

abbrev pub content : Option Bytes → Bytes
content none = []
content (some b) = b

-- The bytes of the active segment.
abbrev pub active_bytes : Log → Bytes
active_bytes l = content (Dicts.get (segment_name l.service l.active_segment) l.files)

unfoldable pub roll_if_full : Log → Log
unfolding rollover
roll_if_full l = if leb l.segment_threshold (length (active_bytes l)) then rollover l else l

-- The segment, the offset and the size of the line that was written.
unfoldable pub append : Codec → Text → Log → (Text × ℕ × ℕ) × Log
unfolding roll_if_full
append c line l =
    let encoded = c.encode (line ++ (10 ∷ [])) in
    let written = record l {
      files = put (segment_name l.service l.active_segment) (active_bytes l ++ encoded) l.files;
    } in
    ((show_03d l.active_segment, length (active_bytes l), length encoded), roll_if_full written)

-- `rstrip("\n")`
unfoldable pub keep_unless_last_newline : ℕ → Text → Text
keep_unless_last_newline c [] = if c == 10 then [] else c ∷ []
keep_unless_last_newline c (d ∷ s) = c ∷ d ∷ s

unfoldable pub rstrip_newlines : Text → Text
unfolding keep_unless_last_newline
rstrip_newlines [] = []
rstrip_newlines (c ∷ s) = keep_unless_last_newline c (rstrip_newlines s)

-- A file opened as text: "\r\n" and "\r" are read as "\n".
unfoldable pub translate_newlines : Bool → Text → Text
translate_newlines cr [] = []
translate_newlines cr (c ∷ s) =
    let rest = translate_newlines (c == 13) s in
    if c == 13 then 10 ∷ rest else if (c == 10) && cr then rest else c ∷ rest

unfoldable pub read_slice : Codec → ℕ → ℕ → Option Bytes → Result Text
unfolding rstrip_newlines
read_slice c offset size none = raise os_error
read_slice c offset size (some bytes) = do
  line ← or_raise value_error (c.decode (take size (drop offset bytes)))
  ok (rstrip_newlines line)

unfoldable read_whole : Codec → Option Bytes → Result Text
unfolding translate_newlines
read_whole c none = raise os_error
read_whole c (some bytes) = do
  text ← or_raise value_error (c.decode bytes)
  ok (translate_newlines false text)

-- `read`, of a blob or of a slice of a segment. A `UnicodeDecodeError` is a `ValueError`.
unfoldable pub read : Codec → Text → ℕ → ℕ → Log → Result Text
unfolding read_slice read_whole
read c seg offset size l = elim (strip_prefix (codes "blobs/") seg) [
  | some _ ↦ read_whole c (Dicts.get seg l.files)
  | none ↦ do
    n ← or_raise value_error (int seg)
    read_slice c offset size (Dicts.get (segment_name l.service n) l.files)
]

-- The numbers of the segments, sorted by insertion.
unfoldable insert_sorted : ℕ → List ℕ → List ℕ
insert_sorted n [] = n ∷ []
insert_sorted n (m ∷ ms) = if leb n m then n ∷ m ∷ ms else m ∷ insert_sorted n ms

unfoldable segments_of : Text → List Text → List ℕ
unfolding match_segment insert_sorted
segments_of service [] = []
segments_of service (name ∷ names) = elim (match_segment service name) [
  | none ↦ segments_of service names
  | some n ↦ insert_sorted n (segments_of service names)
]

unfoldable pub list_segments : Log → List ℕ
unfolding segments_of
list_segments l = segments_of l.service (keys l.files)
