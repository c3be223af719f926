-- ===== src/Postings.antt =====
-- What the two query indexes keep: for each key the set of the ids that have it. A key without ids is
-- not kept by `discard_at`.
use mk_db.Base.{
  ◌≡◌, refl, ap, ◌∙◌, ite, Text, List, [], ◌∷◌, Option, none, some, Bool, ◌&&◌, ◌||◌, not, Dict,
  Key, put, remove, get-put, get-remove, test, text_discrete, arith,
}
use mk_db.Base.Dicts
use mk_db.Base.Sets.{
  elem, add, union, minus, discard, filter, elem-add, elem-union, elem-minus, elem-discard,
}

abbrev pub ids_or_empty : Option (List Text) → List Text
ids_or_empty none = []
ids_or_empty (some ids) = ids

module _ {K : Type 0} ⦃e : Key K⦄ where
  -- `m.setdefault(k, set()).add(id)`
  unfoldable pub add_at : K → Text → Dict K (List Text) → Dict K (List Text)
  add_at k id m = put k (add id (ids_or_empty (Dicts.get k m))) m

  -- `m.setdefault(k, set()).update(ids)`
  unfoldable pub union_at : K → List Text → Dict K (List Text) → Dict K (List Text)
  union_at k ids m = put k (union (ids_or_empty (Dicts.get k m)) ids) m

  -- An entry that has become empty is deleted.
  unfoldable put_or_prune : K → List Text → Dict K (List Text) → Dict K (List Text)
  put_or_prune k [] m = remove k m
  put_or_prune k (id ∷ ids) m = put k (id ∷ ids) m

  -- A key whose set is not there, or empty, is left alone.
  unfoldable prune_with :
      K → (List Text → List Text) → Option (List Text) → Dict K (List Text) → Dict K (List Text)
  unfolding put_or_prune
  prune_with k f none m = m
  prune_with k f (some []) m = m
  prune_with k f (some (id ∷ ids)) m = put_or_prune k (f (id ∷ ids)) m

  unfoldable pub discard_at : K → Text → Dict K (List Text) → Dict K (List Text)
  unfolding prune_with
  discard_at k id m = prune_with k (discard id) (Dicts.get k m) m

  unfoldable pub minus_at : K → List Text → Dict K (List Text) → Dict K (List Text)
  unfolding prune_with
  minus_at k gone m = prune_with k (λ ids. minus ids gone) (Dicts.get k m) m

  -- The id is among those of the key.
  unfoldable pub has : K → Text → Dict K (List Text) → Bool
  has k id m = elem id (ids_or_empty (Dicts.get k m))

  pub has-add_at :
      (k l : K) (id j : Text) (m : Dict K (List Text))
      → has l j (add_at k id m) ≡ (has l j m || (test (e.dec k l) && test (text_discrete id j)))
  unfolding has add_at
  has-add_at k l id j m = elim (e.dec k l) [
    | yes same ↦ ground (
      arith,
      get-put k l (add id (ids_or_empty (Dicts.get k m))) m,
      elem-add j id (ids_or_empty (Dicts.get k m)),
    )
    | no other ↦ ground (arith, get-put k l (add id (ids_or_empty (Dicts.get k m))) m)
  ]

  pub has-union_at :
      (k l : K) (ids : List Text) (j : Text) (m : Dict K (List Text))
      → has l j (union_at k ids m) ≡ (has l j m || (test (e.dec k l) && elem j ids))
  unfolding has union_at
  has-union_at k l ids j m = elim (e.dec k l) [
    | yes same ↦ ground (
      arith,
      get-put k l (union (ids_or_empty (Dicts.get k m)) ids) m,
      elem-union j (ids_or_empty (Dicts.get k m)) ids,
    )
    | no other ↦ ground (arith, get-put k l (union (ids_or_empty (Dicts.get k m)) ids) m)
  ]

  has-put_or_prune :
      (k l : K) (ids : List Text) (j : Text) (m : Dict K (List Text))
      → has l j (put_or_prune k ids m) ≡ ite (e.dec k l) (elem j ids) (has l j m)
  unfolding has put_or_prune elem
  has-put_or_prune k l [] j m = ground (arith, get-remove k l m)
  has-put_or_prune k l (id ∷ ids) j m = ground (arith, get-put k l (id ∷ ids) m)

  has-prune_with :
      (k l : K) (f : List Text → List Text) (j : Text) (o : Option (List Text))
      (m : Dict K (List Text))
      → f [] ≡ []
      → Dicts.get k m ≡ o
      → has l j (prune_with k f o m) ≡ ite (e.dec k l) (elem j (f (ids_or_empty o))) (has l j m)
  unfolding prune_with
  has-prune_with k l f j none m h g = rw h (
      unfold has elem in
      elim (e.dec k l) [
        | yes same ↦ ground (arith, ap (λ x. Dicts.get x m) same)
        | no other ↦ ground arith
      ])
  has-prune_with k l f j (some []) m h g = rw h (
      unfold has elem in
      elim (e.dec k l) [
        | yes same ↦ ground (arith, ap (λ x. Dicts.get x m) same)
        | no other ↦ ground arith
      ])
  has-prune_with k l f j (some (id ∷ ids)) m h g = has-put_or_prune k l (f (id ∷ ids)) j m

  pub has-discard_at :
      (k l : K) (id j : Text) (m : Dict K (List Text))
      → has l j (discard_at k id m)
        ≡ (has l j m && not (test (e.dec k l) && test (text_discrete j id)))
  has-discard_at k l id j m =
      let step : has l j (discard_at k id m)
          ≡ ite (e.dec k l) (elem j (discard id (ids_or_empty (Dicts.get k m)))) (has l j m) =
        unfold discard_at in
        has-prune_with k l (discard id) j (Dicts.get k m) m (unfold discard filter in refl) refl in
      step ∙ elim (e.dec k l) [
        | yes same ↦
            rw same (unfold has in ground (arith, elem-discard j id (ids_or_empty (Dicts.get l m))))
        | no other ↦ ground arith
      ]

  pub has-minus_at :
      (k l : K) (gone : List Text) (j : Text) (m : Dict K (List Text))
      → has l j (minus_at k gone m) ≡ (has l j m && not (test (e.dec k l) && elem j gone))
  has-minus_at k l gone j m =
      let step : has l j (minus_at k gone m)
          ≡ ite (e.dec k l) (elem j (minus (ids_or_empty (Dicts.get k m)) gone)) (has l j m) =
        unfold minus_at in
        has-prune_with k l (λ ids. minus ids gone) j (Dicts.get k m) m (unfold minus filter in refl)
          refl in
      step ∙ elim (e.dec k l) [
        | yes same ↦
            rw same (unfold has in ground (arith, elem-minus j (ids_or_empty (Dicts.get l m)) gone))
        | no other ↦ ground arith
      ]
