-- ===== src/Tests/Searches.antt =====
-- Tests of the query engine and its indexes: two records, and numbers as floats.
use mk_db.Base.{
  ℕ, ◌≡◌, refl, arith, Text, text_key, text_discrete, codes, [], ◌∷◌, none, some, Bool, true, false,
  ◌&&◌, ◌||◌, not, Key, ℕ_discrete, ok, test, ltb, if◌then◌else◌, is_space, has_char,
}
use mk_db.Base.Dicts
use mk_db.Base.Sets.{elem}
use mk_db.Json.{Json, null, str, arr, obj, nil, cons, Fields, end, field}
use mk_db.Json.Entries.{get}
use mk_db.Postings.{has}
use mk_db.Tokenizer.{tokenize}
use mk_db.FullText
use mk_db.FullText.{FullText, add_text, remove_text, merge_buffers}
use mk_db.FullText.Words.{found_by, search-add_text}
use mk_db.FullText.Buffers.{has-merge_update}
use mk_db.Numeric.{Number, Numeric, range_query}
use mk_db.Numeric.Ranges.{IsLinear, any_value, above, below, elem-range_query}
use mk_db.Query.Values.{Values}
use mk_db.Query.Scan.{Source, eq, record_passes, passes, value_in}
use mk_db.Query.Eval.{eval_and}
use mk_db.Query.Meaning.{holds_and, FitsAnd}
use mk_db.Query.Answers.{Answers, no_index, eval_and-Answers}
use mk_db.Query.Indexed.{has-backfill_text, word_in}
use mk_db.Query.Upkeep.{backfill_text, backfill_value, flat_of}
use mk_db.Tests.Samples.{sample_codec, empty_disk}

instance abbrev number_key : Key ℕ
number_key = record { dec = ℕ_discrete }

abbrev number : Number ℕ
number = record {
  lt = ltb;
  parse = λ s. none;
  print = λ n. [];
  of_json = λ v. none;
  overflows = λ v. false;
}

abbrev same : Json → Json → Bool
same null null = true
same (str s) (str t) = test (text_discrete s t)
same _ _ = false

abbrev values : Values
values = record {
  eq = same;
  gt = λ v w. ok false;
  ge = λ v w. ok false;
  lt = λ v w. ok false;
  le = λ v w. ok false;
}

abbrev titled : Text → Fields
titled t = field (codes "t") (str t) end

-- Two records, "a" with the title "hi" and "b" with another.
abbrev source : Source
source = record {
  ids = codes "a" ∷ codes "b" ∷ [];
  read = λ id.
      ok (some (titled (if test (text_discrete id (codes "a")) then codes "hi" else codes "yo")));
  nested = false;
  recursion_limit = 12;
  lower = λ s. s;
  values = values;
}

-- `{"$or": [{"t": "hi"}, {"t": "zz"}]}`
abbrev filter : Json
filter = obj (
    field (codes "$or")
      (arr (cons (obj (titled (codes "hi"))) (cons (obj (titled (codes "zz"))) nil))) end)

fits : FitsAnd source 0 filter
unfolding FitsAnd text_discrete record_passes passes value_in get
fits = (
  omega arith,
  (
    (
      omega arith,
      (
        (omega arith, (((true, refl), ((false, refl), tt)), tt)),
        ((omega arith, (((false, refl), ((false, refl), tt)), tt)), tt),
      ),
    ),
    tt,
  ),
)

eval_and-Answers_example :
    Answers source.ids
      (eval_and number source (no_index number) 0 filter)
      (λ j. holds_and source j filter)
eval_and-Answers_example = eval_and-Answers number source 0 filter fits

-- An empty index, in memory or on disk.
abbrev empty_index : Bool → FullText
empty_index in_ram = record {
  map = [];
  in_ram = in_ram;
  ram_threshold = 0;
  add_buf = [];
  remove_buf = [];
  file = none;
}

search-add_text_example :
    (elem
        (codes "a")
        (FullText.search
          (λ s. s)
          true
          (codes "hi" ∷ [])
          (add_text (λ s. s) (codes "a") (codes "hi") (empty_index true))).0
      ≡ found_by
          (λ s. s)
          true
          (λ stem.
            has stem (codes "a") []
            || (elem stem (tokenize (λ s. s) (codes "hi"))
                && test (text_discrete (codes "a") (codes "a"))))
          (codes "hi" ∷ []))
    × (elem
          (codes "a")
          (FullText.search
            (λ s. s)
            true
            (codes "hi" ∷ [])
            (remove_text (λ s. s) (codes "a") (codes "hi") (empty_index true))).0
        ≡ found_by
            (λ s. s)
            true
            (λ stem.
              has stem (codes "a") []
              && not (
                  elem stem (tokenize (λ s. s) (codes "hi"))
                  && test (text_discrete (codes "a") (codes "a"))))
            (codes "hi" ∷ []))
search-add_text_example =
    search-add_text (λ s. s) true (codes "a") (codes "a") (codes "hi") (codes "hi" ∷ [])
      (empty_index true) refl

has_word : elem (codes "hi") (tokenize (λ s. s) (codes "hi")) ≡ true
unfolding elem tokenize text_discrete is_space has_char
has_word = refl

has-merge_update_example :
    has (codes "hi") (codes "a") (
      merge_buffers
        (add_text
          (λ s. s)
          (codes "a")
          (codes "hi")
          (remove_text (λ s. s) (codes "a") (codes "hi") (empty_index false))).add_buf
        (add_text
          (λ s. s)
          (codes "a")
          (codes "hi")
          (remove_text (λ s. s) (codes "a") (codes "hi") (empty_index false))).remove_buf
        [])
    ≡ false
has-merge_update_example =
    has-merge_update (λ s. s) (codes "a") (codes "hi") (codes "hi") (codes "hi") (empty_index false)
      [] refl tt tt has_word

-- The index of the records' titles.
abbrev title_index : FullText
title_index = record {
  map = (codes "hi", codes "a" ∷ []) ∷ (codes "yo", codes "b" ∷ []) ∷ [];
  in_ram = true;
  ram_threshold = 0;
  add_buf = [];
  remove_buf = [];
  file = none;
}

has-backfill_text_example :
    has
      (codes "hi")
      (codes "a")
      (backfill_text
        (λ s. s)
        (λ v. [])
        sample_codec
        empty_disk
        (codes "t")
        (codes "a" ∷ [])
        (empty_index true)).map
    ≡ (has (codes "hi") (codes "a") []
        || (elem (codes "a") (codes "a" ∷ [])
            && word_in
                (λ s. s)
                (λ v. [])
                (codes "hi")
                (backfill_value (codes "t") (flat_of sample_codec empty_disk (codes "a")))))
has-backfill_text_example =
    has-backfill_text (λ s. s) (λ v. []) sample_codec empty_disk (codes "t") (codes "hi")
      (codes "a") (codes "a" ∷ []) (empty_index true) refl

number-IsLinear : IsLinear number
number-IsLinear = record {
  le_trans = λ x y z h k. ground arith;
  asym = λ x y h. ground arith;
  antisym = λ x y h k. ground arith;
}

abbrev prices : Numeric ℕ
prices = record {
  map = (5, codes "a" ∷ []) ∷ (9, codes "b" ∷ []) ∷ [];
  values = 5 ∷ 9 ∷ [];
  in_ram = true;
  ram_threshold = 0;
  write_buf = [];
  remove_buf = [];
  file = none;
}

elem-range_query_example :
    elem (codes "b") (range_query number (some 6) none false true prices).0
    ≡ any_value
        (λ v.
          above number (some 6) false v
          && (below number none true v && has v (codes "b") prices.map))
        (5 ∷ 9 ∷ [])
elem-range_query_example =
    elem-range_query number (some 6) none false true (codes "b") prices number-IsLinear refl
      ((refl, tt), (tt, tt))
