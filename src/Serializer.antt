-- ===== src/Serializer.antt =====
-- The lines of a log file, mkdb/db/storage/serializer.py: an id, one space and a JSON object.
pub mod RoundTrip
use mk_db.Base.{ℕ, Text, List, [], ◌∷◌, ◌++◌, Option, none, some, strip, ◌==◌, if◌then◌else◌}
use mk_db.Json.{Json, obj, Fields, end}
use mk_db.Codec.{Codec}

-- `line[:space]` and `line[space + 1:]` at the first space, `none` where there is none.
unfoldable pub cut_at_space : Text → Option (Text × Text)
cut_at_space [] = none
cut_at_space (c ∷ s) =
    let rest = cut_at_space s in
    if c == 32 then some ([], s) else elim rest [ none ↦ none | some (a, b) ↦ some (c ∷ a, b) ]

unfoldable pub serialize_record : Codec → Text → Fields → Text
serialize_record c id d = id ++ (32 ∷ c.dumps d)

-- The id and the value, or `(None, {})`.
unfoldable pub parse_cut : Codec → Option (Text × Text) → Option Text × Json
parse_cut c none = (none, obj end)
parse_cut c (some (id, body)) = elim (c.loads body) [
  | none ↦ (none, obj end)
  | some v ↦ (some id, v)
]

-- An empty line has no space either.
unfoldable pub deserialize_record : Codec → Text → Option Text × Json
unfolding cut_at_space parse_cut strip
deserialize_record c line = parse_cut c (cut_at_space (strip line))
