-- ===== src/Query/Limits.antt =====
-- The recursion limit, the pages and the counts of an answer, mkdb/db/query/query_engine.py: `query`.
use mk_db.Base.{
  ℕ, zero, suc, ◌+◌, ◌-◌, ◌<◌, ◌≡◌, refl, ◌∙◌, ap, arith, Text, List, [], ◌∷◌, ◌++◌, some, Key, ok,
  raise, ◌>>=◌, query_syntax_error, take, drop, Bool-cases, inl, inr, ltb,
}
use mk_db.Base.Integers.{pos}
use mk_db.Base.Result.{Result}
use mk_db.Json.{Json, null, bool, int, float, str, arr, obj, nil, cons}
use mk_db.Numeric.{Number}
use mk_db.Query.Scan.{Source}
use mk_db.Query.Eval.{Engine, within, eval_and, eval_rest, eval_clauses, meet_or}
use mk_db.Query.Pages.{page}

-- The filter below as many lists of one filter each.
abbrev nest : ℕ → Json → Json
nest zero v = v
nest (suc k) v = arr (cons (nest k v) nil)

module _ {V : Type 0} ⦃e : Key V⦄ (n : Number V) where
  within-deep :
      (x : Source) (depth : ℕ) (r : Result (List Text))
      → x.recursion_limit < depth
      → within n x depth r ≡ raise query_syntax_error
  within-deep x depth r h = elim (Bool-cases (ltb x.recursion_limit depth)) [
    | inl deep ↦ rw deep refl
    | inr fits ↦ absurd (ground arith)
  ]

  eval_and-deep :
      (x : Source) (g : Engine V) (depth : ℕ) (v : Json)
      → x.recursion_limit < depth
      → eval_and n x g depth v ≡ raise query_syntax_error
  unfolding eval_and
  eval_and-deep x g depth null h = within-deep x depth (ok []) h
  eval_and-deep x g depth (bool b) h = within-deep x depth (ok []) h
  eval_and-deep x g depth (int s k) h = within-deep x depth (ok []) h
  eval_and-deep x g depth (float k) h = within-deep x depth (ok []) h
  eval_and-deep x g depth (str s) h = within-deep x depth (ok []) h
  eval_and-deep x g depth (arr nil) h = within-deep x depth (ok x.ids) h
  eval_and-deep x g depth (arr (cons v vs)) h =
      within-deep x depth (eval_and n x g (suc depth) v >>= (λ s. eval_rest n x g depth s vs)) h
  eval_and-deep x g depth (obj d) h =
      within-deep x depth (eval_clauses n x g depth d >>= (λ ss. ok (meet_or n x.ids ss))) h

  within-raise :
      (x : Source) (depth : ℕ)
      → within n x depth (raise query_syntax_error) ≡ raise query_syntax_error
  within-raise x depth = elim (Bool-cases (ltb x.recursion_limit depth)) [
    | inl deep ↦ rw deep refl
    | inr fits ↦ rw fits refl
  ]

  eval_and_one :
      (x : Source) (g : Engine V) (depth : ℕ) (v : Json)
      → eval_and n x g (suc depth) v ≡ raise query_syntax_error
      → eval_and n x g depth (arr (cons v nil)) ≡ raise query_syntax_error
  eval_and_one x g depth v h =
      let step : eval_and n x g depth (arr (cons v nil))
          ≡ within n x depth (eval_and n x g (suc depth) v >>= (λ s. eval_rest n x g depth s nil)) =
        unfold eval_and eval_rest in refl in
      step ∙ rw h (within-raise x depth)

  -- A filter that is nested beyond the recursion limit is refused with a `QuerySyntaxError`, whatever
  -- filter stands innermost and whatever the indexes are.
  eval_and-nest :
      (x : Source) (g : Engine V) (depth k : ℕ) (v : Json)
      → x.recursion_limit < depth + k
      → eval_and n x g depth (nest k v) ≡ raise query_syntax_error
  eval_and-nest x g depth zero v h = eval_and-deep x g depth v (omega arith)
  eval_and-nest x g depth (suc k) v h =
      eval_and_one x g depth (nest k v) (eval_and-nest x g (suc depth) k v (omega arith))

take-drop_add : (n m : ℕ) (xs : List Text) → take n xs ++ take m (drop n xs) ≡ take (n + m) xs
take-drop_add zero m xs = let z : zero + m ≡ m = omega arith in rw z refl
take-drop_add (suc n) zero [] = let z : suc n + zero ≡ suc n = omega arith in rw z refl
take-drop_add (suc n) (suc m) [] =
    let z : suc n + suc m ≡ suc (n + suc m) = omega arith in rw z refl
take-drop_add (suc n) m (x ∷ xs) =
    let z : suc n + m ≡ suc (n + m) = omega arith in rw z (ap (◌∷◌ x) (take-drop_add n m xs))

drop_add : (n m : ℕ) (xs : List Text) → drop (n + m) xs ≡ drop m (drop n xs)
drop_add zero m xs = let z : zero + m ≡ m = omega arith in rw z refl
drop_add (suc n) zero [] = let z : suc n + zero ≡ suc n = omega arith in rw z refl
drop_add (suc n) (suc m) [] = let z : suc n + suc m ≡ suc (n + suc m) = omega arith in rw z refl
drop_add (suc n) m (x ∷ xs) =
    let z : suc n + m ≡ suc (n + m) = omega arith in rw z (drop_add n m xs)

page-take :
    (start k : ℕ) (ids : List Text) → page (pos start) (some (pos k)) ids ≡ take k (drop start ids)
unfolding page
page-take start k ids = let size : start + k - start ≡ k = omega arith in rw size refl

-- Two pages that follow one another are the page of both, whatever their sizes, also past the end.
page-append :
    (start first second : ℕ) (ids : List Text)
    → page (pos start) (some (pos first)) ids ++ page (pos (start + first)) (some (pos second)) ids
      ≡ page (pos start) (some (pos (first + second))) ids
page-append start first second ids =
    rw
      (
        page-take start first ids,
        page-take (start + first) second ids,
        page-take start (first + second) ids,
        drop_add start first ids,
      )
      (take-drop_add first second (drop start ids))
