-- ===== src/Tokenizer.antt =====
-- The words of a text, mkdb/db/query/tokenizer.py. The function `lower` is `str.lower`, whose table of
-- letters is a parameter.
use mk_db.Base.{
  ℕ, Text, List, [], ◌∷◌, Bool, codes, ltb, ◌&&◌, not, if◌then◌else◌, length, is_space, prepend,
  has_char,
}
use mk_db.Base.Sets.{elem}

-- `_STRIP_CHARS`
abbrev strip_chars : Text
strip_chars = codes ".,!?;:\"'()[]{}<>@#$%^&*+-=/\\|~`_"

-- `STOP_WORDS`
abbrev stop_words : List Text
stop_words =
    codes "the"
    ∷ codes "is"
    ∷ codes "a"
    ∷ codes "and"
    ∷ codes "for"
    ∷ codes "in"
    ∷ codes "to"
    ∷ codes "of"
    ∷ codes "with"
    ∷ codes "an"
    ∷ codes "on"
    ∷ codes "at"
    ∷ codes "by"
    ∷ codes "it"
    ∷ codes "as"
    ∷ codes "or"
    ∷ codes "be"
    ∷ codes "this"
    ∷ codes "that"
    ∷ codes "are"
    ∷ codes "was"
    ∷ codes "were"
    ∷ codes "not"
    ∷ []

-- The pieces between characters of white space, some of them empty.
unfoldable pub pieces : Text → List Text
pieces [] = [] ∷ []
pieces (c ∷ s) = let rest = pieces s in if is_space c then [] ∷ rest else prepend c rest

unfoldable pub drop_empty : List Text → List Text
drop_empty [] = []
drop_empty ([] ∷ ws) = drop_empty ws
drop_empty ((c ∷ w) ∷ ws) = (c ∷ w) ∷ drop_empty ws

-- `s.split()`
unfoldable split_words : Text → List Text
unfolding pieces drop_empty
split_words s = drop_empty (pieces s)

-- `s.strip(_STRIP_CHARS)`
unfoldable lstrip_marks : Text → Text
lstrip_marks [] = []
lstrip_marks (c ∷ s) = let rest = lstrip_marks s in if has_char c strip_chars then rest else c ∷ s

unfoldable cons_unless_last_mark : ℕ → Text → Text
cons_unless_last_mark c [] = if has_char c strip_chars then [] else c ∷ []
cons_unless_last_mark c (d ∷ s) = c ∷ d ∷ s

unfoldable rstrip_marks : Text → Text
unfolding cons_unless_last_mark
rstrip_marks [] = []
rstrip_marks (c ∷ s) = cons_unless_last_mark c (rstrip_marks s)

unfoldable strip_marks : Text → Text
unfolding lstrip_marks rstrip_marks
strip_marks s = lstrip_marks (rstrip_marks s)

-- The test of the loop: a word of two characters or more that is no stop word.
unfoldable is_token : Text → Bool
is_token w = ltb 1 (length w) && not (elem w stop_words)

unfoldable tokens_of : List Text → List Text
unfolding strip_marks is_token
tokens_of [] = []
tokens_of (raw ∷ raws) =
    let rest = tokens_of raws in
    let word = strip_marks raw in if is_token word then word ∷ rest else rest

-- `tokenize`; the empty text has no words.
unfoldable pub tokenize : (Text → Text) → Text → List Text
unfolding tokens_of split_words
tokenize lower text = tokens_of (split_words (lower text))
