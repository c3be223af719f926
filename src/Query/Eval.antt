-- ===== src/Query/Eval.antt =====
-- The evaluation of a filter, mkdb/db/query/query_engine.py: `_eval_logic_block`, `_eval_field` and
-- `_text_match`. A set of ids is a list. An index on disk that is flushed by a query is flushed to the
-- same file by each later one, so the engine is not passed on from clause to clause.
use mk_db.Base.{
  ℕ, suc, Text, text_key, text_discrete, codes, List, [], ◌∷◌, Option, none, some, Bool, true,
  false, Dict, Key, ok, raise, ◌>>=◌, or_raise, value_error, overflow_error, query_syntax_error,
  if◌then◌else◌, ltb,
}
use mk_db.Base.Dicts
use mk_db.Base.Result.{Result}
use mk_db.Base.Sets.{union, inter}
use mk_db.Json.{Json, null, bool, int, float, str, arr, obj, Items, nil, cons, Fields, end, field}
use mk_db.Json.Entries.{get}
use mk_db.Tokenizer.{tokenize}
use mk_db.FullText
use mk_db.FullText.{FullText}
use mk_db.Numeric.{Number, Numeric, exact_query, range_query}
use mk_db.Query.Values.{keyword, keywords}
use mk_db.Query.Scan.{
  Source, by_name, Op, eq, in_op, contains_op, gt, ge, lt, le, op_of, full_scan_filter, scan_ids,
  or_null,
}

pub record Engine (V : Type 0) : Type 0 where
  pub full_text : Dict Text FullText
  pub numeric : Dict Text (Numeric V)

-- The test that `_text_match` makes of a candidate: the field of the record is the text.
unfoldable pub has_text : Source → Text → Text → Text → Result Bool
has_text x f s id = do
  rec ← x.read id
  elim rec [
    | none ↦ ok false
    | some end ↦ ok false
    | some (field k v d) ↦ ok (x.values.eq (or_null (get f (field k v d))) (str s))
  ]

-- `_text_match` with the index of the field, for the tokens of the text.
unfoldable pub match_tokens : Source → FullText → Text → Text → List Text → Result (List Text)
unfolding has_text
match_tokens x ft f s [] = ok x.ids
match_tokens x ft f s (w ∷ ws) =
    scan_ids (has_text x f s) (FullText.search x.lower true (w ∷ ws) ft).0

unfoldable pub text_match : Source → Option FullText → Text → Text → Result (List Text)
unfolding match_tokens full_scan_filter
text_match x none f s = full_scan_filter x f (str s) eq
text_match x (some ft) f s = match_tokens x ft f s (tokenize x.lower s)

-- A list as the value of a field.
unfoldable pub match_list : Source → Option FullText → Text → Items → Result (List Text)
match_list x none f vs = full_scan_filter x f (arr vs) in_op
match_list x (some ft) f vs = do kws ← keywords vs; ok (FullText.search x.lower true kws ft).0

-- `contains`
unfoldable pub match_contains : Source → Option FullText → Text → Json → Result (List Text)
match_contains x none f v = full_scan_filter x f v contains_op
match_contains x (some ft) f v = do
  s ← keyword v
  ok (FullText.search x.lower true (tokenize x.lower s) ft).0

module _ {V : Type 0} ⦃e : Key V⦄ (n : Number V) where
  -- `float(v)`
  abbrev as_float : Json → Result V
  as_float v = if n.overflows v then raise overflow_error else or_raise value_error (n.of_json v)

  -- A number as the value of a field.
  unfoldable pub match_number : Source → Option (Numeric V) → Text → Json → Result (List Text)
  unfolding exact_query
  match_number x none f v = full_scan_filter x f v eq
  match_number x (some i) f v = do w ← as_float v; ok (exact_query n w i).0

  -- A bound that is `None` is no bound.
  abbrev bound : Json → Result (Option V)
  bound null = ok none
  bound v = do w ← as_float v; ok (some w)

  -- An order against a bound, with the index of the field.
  unfoldable pub match_order : Source → Option (Numeric V) → Text → Op → Json → Result (List Text)
  unfolding range_query
  match_order x none f op v = full_scan_filter x f v op
  match_order x (some i) f gt v = do b ← bound v; ok (range_query n b none false true i).0
  match_order x (some i) f ge v = do b ← bound v; ok (range_query n b none true true i).0
  match_order x (some i) f lt v = do b ← bound v; ok (range_query n none b true false i).0
  match_order x (some i) f le v = do b ← bound v; ok (range_query n none b true true i).0
  match_order x (some i) f op v = full_scan_filter x f v op

  unfoldable pub match_op : Source → Engine V → Text → Op → Json → Result (List Text)
  unfolding match_order match_contains
  match_op x g f gt v = match_order x (Dicts.get f g.numeric) f gt v
  match_op x g f ge v = match_order x (Dicts.get f g.numeric) f ge v
  match_op x g f lt v = match_order x (Dicts.get f g.numeric) f lt v
  match_op x g f le v = match_order x (Dicts.get f g.numeric) f le v
  match_op x g f contains_op v = match_contains x (Dicts.get f g.full_text) f v
  match_op x g f op v = full_scan_filter x f v op

  -- The loop over the operators of a field; a name that is no operator is passed over.
  unfoldable pub match_ops : Source → Engine V → Text → List Text → Fields → Result (List Text)
  match_ops x g f found end = ok found
  match_ops x g f found (field k v rest) = elim (op_of k) [
    | none ↦ match_ops x g f found rest
    | some op ↦ do s ← match_op x g f op v; match_ops x g f (inter found s) rest
  ]

  -- `_eval_field`
  unfoldable pub eval_field : Source → Engine V → Text → Json → Result (List Text)
  unfolding match_number text_match match_list match_ops
  eval_field x g f null = ok []
  eval_field x g f (bool b) = match_number x (Dicts.get f g.numeric) f (bool b)
  eval_field x g f (int s k) = match_number x (Dicts.get f g.numeric) f (int s k)
  eval_field x g f (float k) = match_number x (Dicts.get f g.numeric) f (float k)
  eval_field x g f (str s) = text_match x (Dicts.get f g.full_text) f s
  eval_field x g f (arr vs) = match_list x (Dicts.get f g.full_text) f vs
  eval_field x g f (obj d) = match_ops x g f x.ids d

  -- The check of the depth, before the evaluation of a block.
  abbrev pub within : Source → ℕ → Result (List Text) → Result (List Text)
  within x depth r = if ltb x.recursion_limit depth then raise query_syntax_error else r

  -- The intersection of the sets of a `dict`; without a clause every id is in.
  abbrev pub meet_all : List Text → List (List Text) → List Text
  meet_all s [] = s
  meet_all s (t ∷ ts) = meet_all (inter s t) ts

  abbrev pub meet_or : List Text → List (List Text) → List Text
  meet_or ids [] = ids
  meet_or ids (s ∷ ts) = meet_all s ts

  -- `_eval_logic_block`
  unfoldable mutual
    -- with `$and`
    pub eval_and : Source → Engine V → ℕ → Json → Result (List Text)
    eval_and x g depth (arr nil) = within x depth (ok x.ids)
    eval_and x g depth (arr (cons v vs)) =
        within x depth (do s ← eval_and x g (suc depth) v; eval_rest x g depth s vs)
    eval_and x g depth (obj d) =
        within x depth (do ss ← eval_clauses x g depth d; ok (meet_or x.ids ss))
    eval_and x g depth v = within x depth (ok [])

    -- with `$or`
    pub eval_or : Source → Engine V → ℕ → Json → Result (List Text)
    eval_or x g depth (arr vs) = within x depth (eval_any x g depth [] vs)
    eval_or x g depth v = within x depth (raise query_syntax_error)

    pub eval_rest : Source → Engine V → ℕ → List Text → Items → Result (List Text)
    eval_rest x g depth s nil = ok s
    eval_rest x g depth s (cons v vs) = do
      t ← eval_and x g (suc depth) v
      eval_rest x g depth (inter s t) vs

    pub eval_any : Source → Engine V → ℕ → List Text → Items → Result (List Text)
    eval_any x g depth s nil = ok s
    eval_any x g depth s (cons v vs) = do
      t ← eval_and x g (suc depth) v
      eval_any x g depth (union s t) vs

    -- The sets of the entries of a `dict`.
    pub eval_clauses : Source → Engine V → ℕ → Fields → Result (List (List Text))
    eval_clauses x g depth end = ok []
    eval_clauses x g depth (field f v d) = do
      s ←
          by_name (text_discrete f (codes "$or")) (text_discrete f (codes "$and"))
            (eval_or x g (suc depth) v) (eval_and x g (suc depth) v) (eval_field x g f v)
      ss ← eval_clauses x g depth d
      ok (s ∷ ss)
