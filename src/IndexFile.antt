-- ===== src/IndexFile.antt =====
-- The lines of the index files that mkdb/db/query/full_text_index.py and mkdb/db/query/numeric_index.py
-- write: a key, a colon, and the ids in order with commas between them.
use mk_db.Base.{
  Text, List, [], ◌∷◌, ◌++◌, Option, none, some, Bool, true, false, ltb, ◌==◌, if◌then◌else◌, split,
  strip,
}
use mk_db.Base.Sets.{union}

-- `s <= t`, by the codes of the characters.
unfoldable text_leb : Text → Text → Bool
text_leb [] t = true
text_leb (c ∷ s) [] = false
text_leb (c ∷ s) (d ∷ t) = let rest = text_leb s t in if c == d then rest else ltb c d

unfoldable insert_text : Text → List Text → List Text
unfolding text_leb
insert_text s [] = s ∷ []
insert_text s (t ∷ ts) =
    let rest = insert_text s ts in if text_leb s t then s ∷ t ∷ ts else t ∷ rest

-- `sorted(ids)`
unfoldable sort_texts : List Text → List Text
unfolding insert_text
sort_texts [] = []
sort_texts (t ∷ ts) = insert_text t (sort_texts ts)

-- `",".join(ids)`
unfoldable join_commas : List Text → Text
join_commas [] = []
join_commas (t ∷ []) = t
join_commas (t ∷ u ∷ ts) = t ++ (b',' ∷ join_commas (u ∷ ts))

-- One line, with its end.
unfoldable pub index_line : Text → List Text → Text
unfolding join_commas sort_texts
index_line key ids = key ++ (b':' ∷ (join_commas (sort_texts ids) ++ (10 ∷ [])))

-- `s.partition(":")`, where there is a colon.
unfoldable pub cut_at_colon : Text → Option (Text × Text)
cut_at_colon [] = none
cut_at_colon (c ∷ s) = elim (c == b':') [
  | true ↦ some ([], s)
  | false ↦ elim (cut_at_colon s) [ none ↦ none | some (key, rest) ↦ some (c ∷ key, rest) ]
]

-- `set(s.split(","))`, and the empty set for the empty text.
unfoldable split_ids : Text → List Text
split_ids [] = []
split_ids (c ∷ s) = union [] (split b',' (c ∷ s))

-- A line as it is read; one that is empty or has no colon is skipped.
unfoldable pub parse_line : Text → Option (Text × List Text)
unfolding cut_at_colon split_ids
parse_line raw = elim (cut_at_colon (strip raw)) [
  | none ↦ none
  | some (key, ids) ↦ some (key, split_ids ids)
]
