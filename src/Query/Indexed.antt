-- ===== src/Query/Indexed.antt =====
-- The exact match of a text through a full-text index against the scan of every record, `_text_match`
-- of mkdb/db/query/query_engine.py, and what a rebuilt index holds.
use mk_db.Base.{
  ◌≡◌, ◌∙◌, ap, arith, Text, text_key, text_discrete, test, List, [], ◌∷◌, Option, none, some, Bool,
  true, false, ◌&&◌, ◌||◌, ok,
}
use mk_db.Base.Result.{Result}
use mk_db.Base.Sets.{elem}
use mk_db.Json.{Json, null, str, Fields}
use mk_db.Codec.{Codec}
use mk_db.Disk.{Disk}
use mk_db.Postings.{has}
use mk_db.Tokenizer.{tokenize}
use mk_db.FullText
use mk_db.FullText.{FullText, add_text}
use mk_db.FullText.Words.{has-add_all, map-add_text}
use mk_db.Query.Scan.{Source, eq}
use mk_db.Query.Answers.{Answers}
use mk_db.Query.Upkeep.{backfill_text, add_text_of, backfill_value, flat_of}

-- `None == "text"` is false.
abbrev IsNullApart : Source → Type 0
IsNullApart x = (s : Text) → x.values.eq null (str s) ≡ false

-- Every read comes to an answer.
abbrev pub Reads : Source → Type 0
Reads x = (j : Text) → (r : Option Fields) × (x.read j ≡ ok r)

-- The word is one of those of the value's text.
abbrev pub word_in : (Text → Text) → (Json → Text) → Text → Option Json → Bool
word_in lower text_of w none = false
word_in lower text_of w (some v) = elem w (tokenize lower (text_of v))

add_text_of-in_ram :
    (lower : Text → Text) (text_of : Json → Text) (id : Text) (o : Option Json) (x : FullText)
    → x.in_ram ≡ true
    → (add_text_of lower text_of id o x).in_ram ≡ true
unfolding add_text_of
add_text_of-in_ram lower text_of id none x ram = ram
add_text_of-in_ram lower text_of id (some v) x ram =
    rw (map-add_text lower id (text_of v) x ram) ram

has-add_text_of :
    (lower : Text → Text) (text_of : Json → Text) (id w j : Text) (o : Option Json) (x : FullText)
    → x.in_ram ≡ true
    → has w j (add_text_of lower text_of id o x).map
      ≡ (has w j x.map || (test (text_discrete id j) && word_in lower text_of w o))
unfolding add_text_of
has-add_text_of lower text_of id w j none x ram = ground arith
has-add_text_of lower text_of id w j (some v) x ram =
    rw (map-add_text lower id (text_of v) x ram)
      (ground (arith, has-add_all w id j (tokenize lower (text_of v)) x.map))

-- An index that is filled from the log has for a word what it had before, and of the ids that were
-- scanned exactly those whose stored record has the word in the field. An id that cannot be read, or
-- whose field is missing or null, is left out.
pub has-backfill_text :
    (lower : Text → Text) (text_of : Json → Text) (c : Codec) (s : Disk) (f w j : Text)
    (ids : List Text) (x : FullText)
    → x.in_ram ≡ true
    → has w j (backfill_text lower text_of c s f ids x).map ≡ (
        has w j x.map || (elem j ids && word_in lower text_of w (backfill_value f (flat_of c s j))))
unfolding backfill_text elem
has-backfill_text lower text_of c s f w j [] x ram = ground arith
has-backfill_text lower text_of c s f w j (id ∷ ids) x ram =
    let o : Option Json = backfill_value f (flat_of c s id) in
    let later : FullText = add_text_of lower text_of id o x in
    let rest : has w j (backfill_text lower text_of c s f ids later).map ≡ (
        has w j later.map
        || (elem j ids && word_in lower text_of w (backfill_value f (flat_of c s j)))) =
      has-backfill_text lower text_of c s f w j ids later
        (add_text_of-in_ram lower text_of id o x ram) in
    let first : has w j later.map
        ≡ (has w j x.map || (test (text_discrete id j) && word_in lower text_of w o)) =
      has-add_text_of lower text_of id w j o x ram in
    elim (text_discrete id j) [
      | yes same ↦
          rest
          ∙ ground (
            arith,
            first,
            ap (λ k. word_in lower text_of w (backfill_value f (flat_of c s k))) same,
          )
      | no other ↦ rest ∙ ground (arith, first)
    ]
