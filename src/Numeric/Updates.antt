-- ===== src/Numeric/Updates.antt =====
-- What the updates of a numeric index keep: the values stay sorted, and a value is looked up with the
-- ids that were added for it and not removed, mkdb/db/query/numeric_index.py.
use mk_db.Base.{
  ◌≡◌, Text, text_discrete, List, [], ◌∷◌, Option, Bool, true, false, ◌&&◌, ◌||◌, not, Dict, Key,
  test, if◌then◌else◌, Bool-cases, inl, inr, All, contains, none, some,
}
use mk_db.Base.Dicts
use mk_db.Base.Sets.{elem}
use mk_db.Postings.{discard_at, has, has-add_at, has-discard_at}
use mk_db.Numeric.{
  Number, Numeric, insort, pop_value, values_with, values_without, add_value, remove_value,
  exact_query,
}
use mk_db.Numeric.Ranges.{IsLinear, IsSorted}

-- In an index that is in memory, a lookup of a value finds an id if it did before or the id was added
-- for this value, and after a removal of the id for this value no more.
elem-exact_query :
    {V : Type 0} ⦃e : Key V⦄ (n : Number V) (v w : V) (id j : Text) (x : Numeric V)
    → x.in_ram ≡ true
    → (elem j (exact_query n w (add_value n id v x)).0
        ≡ (elem j (exact_query n w x).0 || (test (e.dec v w) && test (text_discrete id j))))
      × (elem j (exact_query n w (remove_value n id v x)).0
          ≡ (elem j (exact_query n w x).0 && not (test (e.dec v w) && test (text_discrete j id))))
unfolding exact_query add_value remove_value
elem-exact_query n v w id j x h = (
  rw h (unfold has in has-add_at v w id j x.map),
  rw h (unfold has in has-discard_at v w id j x.map),
)

if_both : {A : Type 0} {x y : A} (P : A → Type 0) (b : Bool) → P x → P y → P (if b then x else y)
if_both P true h k = h
if_both P false h k = k

module _ {V : Type 0} ⦃e : Key V⦄ (n : Number V) where
  All-insort : (p : V → Type 0) (v : V) (xs : List V) → p v → All p xs → All p (insort n v xs)
  unfolding insort
  All-insort p v [] h a = (h, tt)
  All-insort p v (x ∷ xs) h a = elim (Bool-cases (n.lt v x)) [
    | inl before ↦ rw before (h, a)
    | inr after ↦ rw after (a.0, All-insort p v xs h a.1)
  ]

  All-le :
      (v x : V) (xs : List V)
      → IsLinear n
      → n.lt x v ≡ false
      → All (λ y. n.lt y x ≡ false) xs
      → All (λ y. n.lt y v ≡ false) xs
  All-le v x [] l h a = tt
  All-le v x (y ∷ xs) l h a = (l.le_trans v x y h a.0, All-le v x xs l h a.1)

  insort-IsSorted : (v : V) (xs : List V) → IsLinear n → IsSorted n xs → IsSorted n (insort n v xs)
  unfolding insort
  insort-IsSorted v [] l s = (tt, tt)
  insort-IsSorted v (x ∷ xs) l s = elim (Bool-cases (n.lt v x)) [
    | inl before ↦ rw before ((l.asym v x before, All-le v x xs l (l.asym v x before) s.0), s)
    | inr after ↦
        rw after (All-insort (λ y. n.lt y x ≡ false) v xs after s.0, insort-IsSorted v xs l s.1)
  ]

  All-pop_value : (p : V → Type 0) (v : V) (xs : List V) → All p xs → All p (pop_value n v xs)
  unfolding pop_value
  All-pop_value p v [] a = tt
  All-pop_value p v (x ∷ xs) a = elim (Bool-cases (n.lt x v)) [
    | inl before ↦ rw before (a.0, All-pop_value p v xs a.1)
    | inr there ↦ rw there (if_both (All p) (test (e.dec x v)) a.1 a)
  ]

  pop_value-IsSorted : (v : V) (xs : List V) → IsSorted n xs → IsSorted n (pop_value n v xs)
  unfolding pop_value
  pop_value-IsSorted v [] s = tt
  pop_value-IsSorted v (x ∷ xs) s = elim (Bool-cases (n.lt x v)) [
    | inl before ↦
        rw before (All-pop_value (λ y. n.lt y x ≡ false) v xs s.0, pop_value-IsSorted v xs s.1)
    | inr there ↦ rw there (if_both (IsSorted n) (test (e.dec x v)) s.1 s)
  ]

  values_with-IsSorted :
      (v : V) (m : Dict V (List Text)) (xs : List V)
      → IsLinear n
      → IsSorted n xs
      → IsSorted n (values_with n v m xs)
  unfolding values_with
  values_with-IsSorted v m xs l s = elim (Bool-cases (contains v m)) [
    | inl known ↦ rw known s
    | inr new ↦ rw new (insort-IsSorted v xs l s)
  ]

  ids-IsSorted :
      (P : List V → Type 0) (o : Option (List Text)) (b : Bool) (xs ys : List V)
      → P xs
      → P ys
      → P (elim o [ none ↦ xs | some ids ↦ elim ids [ [] ↦ xs | j ∷ js ↦ if b then xs else ys ] ])
  ids-IsSorted P none b xs ys h k = h
  ids-IsSorted P (some []) b xs ys h k = h
  ids-IsSorted P (some (j ∷ js)) b xs ys h k = if_both P b h k

  values_without-IsSorted :
      (v : V) (id : Text) (m : Dict V (List Text)) (xs : List V)
      → IsSorted n xs
      → IsSorted n (values_without n v id m xs)
  unfolding values_without
  values_without-IsSorted v id m xs s =
      ids-IsSorted (IsSorted n) (Dicts.get v m) (contains v (discard_at v id m)) xs
        (pop_value n v xs) s (pop_value-IsSorted v xs s)

  -- An addition and a removal keep the values sorted, in memory and on disk, for numbers with a linear
  -- order.
  add_value-IsSorted :
      (id : Text) (v : V) (x : Numeric V)
      → IsLinear n
      → IsSorted n x.values
      → IsSorted n (add_value n id v x).values × IsSorted n (remove_value n id v x).values
  unfolding add_value remove_value
  add_value-IsSorted id v x l s = elim (Bool-cases x.in_ram) [
    | inl ram ↦
        rw ram
          (values_with-IsSorted v x.map x.values l s, values_without-IsSorted v id x.map x.values s)
    | inr disk ↦ rw disk (s, s)
  ]
