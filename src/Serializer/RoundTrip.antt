-- ===== src/Serializer/RoundTrip.antt =====
-- A record is read back from its line.
use mathlib.Core.List.{append_assoc}
use mk_db.Base.{
  ℕ, ◌≡◌, refl, Text, [], ◌∷◌, ◌++◌, some, false, arith, strip, is_space, has_char, strip-plain,
}
use mk_db.Json.{obj, Fields}
use mk_db.Codec.{Codec, IsJson}
use mk_db.Serializer.{serialize_record, deserialize_record, cut_at_space, parse_cut}

-- An id that a line can hold: it has a first character, which is no space, and no blank.
pub record IsLineId (id : Text) : Type 0 where
  pub first : ℕ
  pub rest : Text
  pub cons : id ≡ first ∷ rest
  pub front : is_space first ≡ false
  pub blank : has_char 32 id ≡ false

cut_at_space-append :
    (id body : Text) → has_char 32 id ≡ false → cut_at_space (id ++ (32 ∷ body)) ≡ some (id, body)
unfolding cut_at_space has_char
cut_at_space-append [] body h = refl
cut_at_space-append (c ∷ id) body h = ground (arith, cut_at_space-append id body)

strip-serialize :
    (c : Codec) (id : Text) (d : Fields)
    → IsLineId id
    → IsJson c d
    → strip (serialize_record c id d) ≡ serialize_record c id d
unfolding serialize_record
strip-serialize c id d p j =
    let middle : Text = p.rest ++ (32 ∷ b'{' ∷ j.body) in
    let whole : id ++ (32 ∷ c.dumps d) ≡ p.first ∷ (middle ++ (b'}' ∷ [])) =
      simp (p.cons, j.braces, append_assoc) in
    rw whole (strip-plain p.first b'}' middle p.front (unfold is_space in refl))

parse_cut-json :
    (c : Codec) (id : Text) (d : Fields)
    → IsJson c d
    → parse_cut c (some (id, c.dumps d)) ≡ (some id, obj d)
unfolding parse_cut
parse_cut-json c id d j = rw (j.loads-dumps, parse_cut) refl

-- Where `json` gives back the record that it wrote in one line, a record is read back from its
-- line with its id, if the id is not empty, starts with no white space and holds no blank.
pub deserialize-serialize :
    (c : Codec) (id : Text) (d : Fields)
    → IsLineId id
    → IsJson c d
    → deserialize_record c (serialize_record c id d) ≡ (some id, obj d)
unfolding deserialize_record
deserialize-serialize c id d p j = rw (strip-serialize c id d p j) (
    unfold serialize_record in
    rw (cut_at_space-append id (c.dumps d) p.blank) (parse_cut-json c id d j))

-- The line ends with the record's brace.
pub serialize-snoc :
    (c : Codec) (id : Text) (d : Fields)
    → IsJson c d
    → (body : Text) × (serialize_record c id d ≡ body ++ (b'}' ∷ []))
unfolding serialize_record
serialize-snoc c id d j = (id ++ (32 ∷ b'{' ∷ j.body), simp (j.braces, append_assoc))
