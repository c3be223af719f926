-- ===== src/Query/Answers.antt =====
-- The evaluation of a filter without an index finds the records that pass it, and it comes to an end
-- with an answer. The code is `_eval_logic_block` of mkdb/db/query/query_engine.py.
use mathlib.Core.Path.{subst}
use mk_db.Base.Dicts
use mk_db.Base.{
  ℕ, suc, ◌≤◌, ◌≡◌, refl, ◌∙◌, ap, arith, Text, text_discrete, codes, List, [], ◌∷◌, Bool, true,
  false, ◌&&◌, ◌||◌, Key, ok, ◌>>=◌, All, ltb, Bool-cases, inl, inr, Option-cases,
}
use mk_db.Base.Result.{Result}
use mk_db.Base.Sets.{elem, union, inter, elem-union, elem-inter}
use mk_db.Json.{Json, null, bool, int, float, str, arr, obj, Items, nil, cons, Fields, end, field}
use mk_db.Numeric.{Number}
use mk_db.Query.Scan.{
  Source, by_name, Op, eq, neq, nin, ge, lt, le, exists_op, in_op, contains_op, gt, op_of,
  full_scan_filter, scan_ids, record_passes,
}
use mk_db.Query.Eval.{
  Engine, within, meet_all, meet_or, eval_field, eval_and, eval_or, eval_rest, eval_any,
  eval_clauses, match_ops, match_op, match_order, match_number, match_list, match_contains,
  text_match,
}
use mk_db.Query.Meaning.{
  yields, holds_ops, holds_field, holds_and, holds_or, holds_all, holds_any, holds_clauses, Runs,
  RunsIfKnown, RunsOps, RunsField, FitsAnd, FitsOr, FitsItems, FitsClauses,
}

-- An answer is given, and its ids are those of the list that pass the test.
abbrev pub Answers : List Text → Result (List Text) → (Text → Bool) → Type 0
Answers ids r p = (s : List Text) × (r ≡ ok s) × ((j : Text) → elem j s ≡ (elem j ids && p j))

by_name-Answers :
    {A B F G H : Type 0} {r s t : Result (List Text)} (p q w : Text → Bool) (ids : List Text)
    (a : Dec A) (b : Dec B)
    → (F → Answers ids r p)
    → (G → Answers ids s q)
    → (H → Answers ids t w)
    → by_name a b F G H
    → Answers ids (by_name a b r s t) (λ j. by_name a b (p j) (q j) (w j))
by_name-Answers p q w ids (yes _) b f g h x = f x
by_name-Answers p q w ids (no _) (yes _) f g h x = g x
by_name-Answers p q w ids (no _) (no _) f g h x = h x

pub scan_ids-Answers :
    (p : Text → Result Bool) (ids : List Text)
    → All (λ id. (b : Bool) × (p id ≡ ok b)) ids
    → Answers ids (scan_ids p ids) (λ j. yields (p j))
unfolding scan_ids elem
scan_ids-Answers p [] h = ([], refl, λ j. refl)
scan_ids-Answers p (id ∷ ids) h =
    let (s, e, f) = scan_ids-Answers p ids h.1 in
    let (b, t) = h.0 in
    elim (Bool-cases b) [
      | inl passed ↦ (
        id ∷ s,
        rw (t, passed, e) refl,
        λ j. elim (text_discrete id j) [
          | yes same ↦ ground (arith, f j, ap p same)
          | no other ↦ ground (arith, f j)
        ],
      )
      | inr failed ↦ (
        s,
        rw (t, failed, e) refl,
        λ j. elim (text_discrete id j) [
          | yes same ↦ ground (arith, f j, ap p same)
          | no other ↦ ground (arith, f j)
        ],
      )
    ]

full_scan_filter-Answers :
    (x : Source) (f : Text) (op : Op) (v : Json)
    → Runs x f op v
    → Answers x.ids (full_scan_filter x f v op) (λ j. yields (record_passes x f op v j))
unfolding full_scan_filter
full_scan_filter-Answers x f op v h = scan_ids-Answers (record_passes x f op v) x.ids h

module _ {V : Type 0} ⦃e : Key V⦄ (n : Number V) where
  -- The engine has no index.
  abbrev pub no_index : Engine V
  no_index = record { full_text = []; numeric = [] }

  match_op-Answers :
      (x : Source) (f : Text) (op : Op) (v : Json)
      → Runs x f op v
      → Answers x.ids (match_op n x no_index f op v) (λ j. yields (record_passes x f op v j))
  unfolding match_op match_order match_contains Dicts.get full_scan_filter
  match_op-Answers x f eq v h = full_scan_filter-Answers x f eq v h
  match_op-Answers x f neq v h = full_scan_filter-Answers x f neq v h
  match_op-Answers x f in_op v h = full_scan_filter-Answers x f in_op v h
  match_op-Answers x f nin v h = full_scan_filter-Answers x f nin v h
  match_op-Answers x f contains_op v h = full_scan_filter-Answers x f contains_op v h
  match_op-Answers x f gt v h = full_scan_filter-Answers x f gt v h
  match_op-Answers x f ge v h = full_scan_filter-Answers x f ge v h
  match_op-Answers x f lt v h = full_scan_filter-Answers x f lt v h
  match_op-Answers x f le v h = full_scan_filter-Answers x f le v h
  match_op-Answers x f exists_op v h = full_scan_filter-Answers x f exists_op v h

  match_ops-Answers :
      (x : Source) (f : Text) (d : Fields) (s : List Text) (p : Text → Bool)
      → RunsOps x f d
      → ((j : Text) → elem j s ≡ (elem j x.ids && p j))
      → Answers x.ids (match_ops n x no_index f s d) (λ j. p j && holds_ops x f j d)
  unfolding match_ops
  match_ops-Answers x f end s p h k = (s, refl, λ j. ground (arith, k j))
  match_ops-Answers x f (field a v d) s p h k = elim (Option-cases (op_of a)) [
    | inl unknown ↦
        let (r, er, fr) = match_ops-Answers x f d s p h.1 k in
        (r, rw (unknown, match_ops) er, λ j. rw (unknown, holds_ops) (fr j))
    | inr (op, known) ↦
        let runs : Runs x f op v = subst (RunsIfKnown x f v) known h.0 in
        let (t, et, ft) = match_op-Answers x f op v runs in
        let (r, er, fr) =
          match_ops-Answers x f d (inter s t) (λ j. p j && yields (record_passes x f op v j)) h.1
            (λ j. ground (arith, elem-inter j s t, k j, ft j)) in
        (r, rw (known, match_ops, et) er, λ j. rw (known, holds_ops) (ground (arith, fr j)))
  ]

  eval_field-Answers :
      (x : Source) (f : Text) (v : Json)
      → RunsField x f v
      → Answers x.ids (eval_field n x no_index f v) (λ j. holds_field x f j v)
  unfolding eval_field match_number text_match match_list elem Dicts.get scan_ids
  eval_field-Answers x f null h = ([], refl, λ j. ground arith)
  eval_field-Answers x f (bool b) h = full_scan_filter-Answers x f eq (bool b) h
  eval_field-Answers x f (int s k) h = full_scan_filter-Answers x f eq (int s k) h
  eval_field-Answers x f (float k) h = full_scan_filter-Answers x f eq (float k) h
  eval_field-Answers x f (str s) h = full_scan_filter-Answers x f eq (str s) h
  eval_field-Answers x f (arr vs) h = full_scan_filter-Answers x f in_op (arr vs) h
  eval_field-Answers x f (obj d) h = match_ops-Answers x f d x.ids (λ j. true) h (λ j. ground arith)

  within_lem :
      (x : Source) (depth : ℕ) (r : Result (List Text))
      → depth ≤ x.recursion_limit
      → within n x depth r ≡ r
  within_lem x depth r h = elim (Bool-cases (ltb x.recursion_limit depth)) [
    | inl deep ↦ absurd (ground arith)
    | inr fits ↦ rw fits refl
  ]

  -- The id is in all of the sets.
  abbrev in_all : Text → List (List Text) → Bool
  in_all j [] = true
  in_all j (s ∷ ss) = elem j s && in_all j ss

  elem-meet_all :
      (j : Text) (s : List Text) (ts : List (List Text))
      → elem j (meet_all n s ts) ≡ (elem j s && in_all j ts)
  elem-meet_all j s [] = ground arith
  elem-meet_all j s (t ∷ ts) = ground (arith, elem-meet_all j (inter s t) ts, elem-inter j s t)

  abbrev AnswersAll : Source → Result (List (List Text)) → (Text → Bool) → Type 0
  AnswersAll x r p =
      (ss : List (List Text)) × (r ≡ ok ss)
      × ((j : Text) → elem j (meet_or n x.ids ss) ≡ (elem j x.ids && p j))

  -- Without a set there is nothing to meet, so the list of the ids stands.
  meet_lem :
      (j : Text) (ids : List Text) (ss : List (List Text))
      → (elem j ids && in_all j ss) ≡ (elem j ids && elem j (meet_or n ids ss))
  meet_lem j ids [] = ground arith
  meet_lem j ids (s ∷ ss) = ground (arith, elem-meet_all j s ss)

  none_found : (j : Text) (ids : List Text) → elem j [] ≡ (elem j ids && false)
  unfolding elem
  none_found j ids = ground arith

  mutual
    unfolding eval_and eval_or eval_rest eval_any eval_clauses holds_and holds_or holds_all
        holds_any holds_clauses FitsAnd FitsOr FitsItems FitsClauses

    eval_and_value-Answers :
        (x : Source) (depth : ℕ) (v : Json)
        → FitsAnd x depth v
        → Answers x.ids (eval_and n x no_index depth v) (λ j. holds_and x j v)
    eval_and_value-Answers x depth (arr nil) h =
        (x.ids, within_lem x depth (ok x.ids) h.0, λ j. ground arith)
    eval_and_value-Answers x depth (arr (cons v vs)) h =
        let (s, e, f) = eval_and_value-Answers x (suc depth) v h.1.0 in
        let (t, et, ft) = eval_rest-Answers x depth s (λ j. holds_and x j v) vs h.1.1 f in
        (
          t,
          within_lem x depth
                (eval_and n x no_index (suc depth) v >>= (λ u. eval_rest n x no_index depth u vs))
                h.0
              ∙ rw e et,
          ft,
        )
    eval_and_value-Answers x depth (obj d) h =
        let (ss, e, f) = eval_clauses-Answers x depth d h.1 in
        (
          meet_or n x.ids ss,
          within_lem x depth (eval_clauses n x no_index depth d >>= (λ u. ok (meet_or n x.ids u)))
                h.0
              ∙ rw e refl,
          f,
        )
    eval_and_value-Answers x depth null h =
        ([], within_lem x depth (ok []) h, λ j. ground (arith, none_found j x.ids))
    eval_and_value-Answers x depth (bool b) h =
        ([], within_lem x depth (ok []) h, λ j. ground (arith, none_found j x.ids))
    eval_and_value-Answers x depth (int s k) h =
        ([], within_lem x depth (ok []) h, λ j. ground (arith, none_found j x.ids))
    eval_and_value-Answers x depth (float k) h =
        ([], within_lem x depth (ok []) h, λ j. ground (arith, none_found j x.ids))
    eval_and_value-Answers x depth (str s) h =
        ([], within_lem x depth (ok []) h, λ j. ground (arith, none_found j x.ids))

    eval_or-Answers :
        (x : Source) (depth : ℕ) (v : Json)
        → FitsOr x depth v
        → Answers x.ids (eval_or n x no_index depth v) (λ j. holds_or x j v)
    eval_or-Answers x depth (arr vs) h =
        let (t, et, ft) =
          eval_any-Answers x depth [] (λ j. false) vs h.1
            (λ j. ground (arith, none_found j x.ids)) in
        (t, within_lem x depth (eval_any n x no_index depth [] vs) h.0 ∙ et, ft)
    eval_or-Answers x depth null h = absurd h
    eval_or-Answers x depth (bool b) h = absurd h
    eval_or-Answers x depth (int s k) h = absurd h
    eval_or-Answers x depth (float k) h = absurd h
    eval_or-Answers x depth (str s) h = absurd h
    eval_or-Answers x depth (obj d) h = absurd h

    eval_rest-Answers :
        (x : Source) (depth : ℕ) (s : List Text) (p : Text → Bool) (vs : Items)
        → FitsItems x (suc depth) vs
        → ((j : Text) → elem j s ≡ (elem j x.ids && p j))
        → Answers x.ids (eval_rest n x no_index depth s vs) (λ j. p j && holds_all x j vs)
    eval_rest-Answers x depth s p nil h k = (s, refl, λ j. ground (arith, k j))
    eval_rest-Answers x depth s p (cons v vs) h k =
        let (t, et, ft) = eval_and_value-Answers x (suc depth) v h.0 in
        let (r, er, fr) =
          eval_rest-Answers x depth (inter s t) (λ j. p j && holds_and x j v) vs h.1
            (λ j. ground (arith, elem-inter j s t, k j, ft j)) in
        (r, rw et er, λ j. ground (arith, fr j))

    eval_any-Answers :
        (x : Source) (depth : ℕ) (s : List Text) (p : Text → Bool) (vs : Items)
        → FitsItems x (suc depth) vs
        → ((j : Text) → elem j s ≡ (elem j x.ids && p j))
        → Answers x.ids (eval_any n x no_index depth s vs) (λ j. p j || holds_any x j vs)
    eval_any-Answers x depth s p nil h k = (s, refl, λ j. ground (arith, k j))
    eval_any-Answers x depth s p (cons v vs) h k =
        let (t, et, ft) = eval_and_value-Answers x (suc depth) v h.0 in
        let (r, er, fr) =
          eval_any-Answers x depth (union s t) (λ j. p j || holds_and x j v) vs h.1
            (λ j. ground (arith, elem-union j s t, k j, ft j)) in
        (r, rw et er, λ j. ground (arith, fr j))

    eval_clauses-Answers :
        (x : Source) (depth : ℕ) (d : Fields)
        → FitsClauses x (suc depth) d
        → AnswersAll x (eval_clauses n x no_index depth d) (λ j. holds_clauses x j d)
    eval_clauses-Answers x depth end h = ([], refl, λ j. ground arith)
    eval_clauses-Answers x depth (field f v d) h =
        let (s, e, g) =
          by_name-Answers (λ j. holds_or x j v) (λ j. holds_and x j v) (λ j. holds_field x f j v)
            x.ids (text_discrete f (codes "$or")) (text_discrete f (codes "$and"))
            (eval_or-Answers x (suc depth) v) (eval_and_value-Answers x (suc depth) v)
            (eval_field-Answers x f v) h.0 in
        let (ss, es, gs) = eval_clauses-Answers x depth d h.1 in
        (
          s ∷ ss,
          rw (e, es) refl,
          λ j. ground (arith, elem-meet_all j s ss, g j, gs j, meet_lem j x.ids ss),
        )

  -- A filter that lies within the recursion limit, whose `$or` are lists and whose tests raise for no
  -- record, is answered without an index: with the ids whose records pass it, each tested by itself.
  pub eval_and-Answers :
      (x : Source) (depth : ℕ) (v : Json)
      → FitsAnd x depth v
      → Answers x.ids (eval_and n x no_index depth v) (λ j. holds_and x j v)
  eval_and-Answers x depth v h = eval_and_value-Answers x depth v h
