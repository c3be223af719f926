-- ===== src/Numeric/Ranges.antt =====
-- A range query by bisection finds what a test of every value finds.
use mathlib.Core.Path.{fun_ext}
use mk_db.Base.{
  zero, suc, ◌-◌, ◌≡◌, refl, sym, ap, ◌∙◌, Text, List, [], ◌∷◌, Option, none, some, Bool, true,
  false, ◌&&◌, ◌||◌, not, Dict, Key, arith, if◌then◌else◌, Bool-cases, inl, inr, length, take, drop,
  All,
}
use mk_db.Base.Dicts
use mk_db.Base.Sets.{elem, elem-union}
use mk_db.Postings.{ids_or_empty, has}
use mk_db.Numeric.{
  Number, Numeric, prefix, bisect_left, bisect_right, lo_index, hi_index, ids_of_values, range_from,
  range_query,
}

-- Whether any value of the list has the property.
abbrev pub any_value : {V : Type 0} → (V → Bool) → List V → Bool
any_value f [] = false
any_value f (x ∷ xs) = f x || any_value f xs

-- The order of the finite floats.
pub record IsLinear {V : Type 0} (n : Number V) : Type 0 where
  pub le_trans : (x y z : V) → n.lt y x ≡ false → n.lt z y ≡ false → n.lt z x ≡ false
  pub asym : (x y : V) → n.lt x y ≡ true → n.lt y x ≡ false
  pub antisym : (x y : V) → n.lt x y ≡ false → n.lt y x ≡ false → x ≡ y

abbrev pub IsSorted : {V : Type 0} (n : Number V) → List V → Type 0
IsSorted n [] = Unit {0}
IsSorted n (x ∷ xs) = All (λ y. n.lt y x ≡ false) xs × IsSorted n xs

module _ {V : Type 0} (n : Number V) where
  -- With a value it holds of every smaller one.
  abbrev IsDownClosed : (V → Bool) → Type 0
  IsDownClosed p = (x y : V) → n.lt y x ≡ false → p y ≡ true → p x ≡ true

  none_later :
      (p f : V → Bool) (x : V) (xs : List V)
      → IsDownClosed p
      → p x ≡ false
      → All (λ y. n.lt y x ≡ false) xs
      → any_value (λ y. p y && f y) xs ≡ false
  none_later p f x [] d h a = refl
  none_later p f x (y ∷ xs) d h a = ground (arith, d x y a.0, none_later p f x xs d h a.1)

  skipped_later :
      (p f : V → Bool) (x : V) (xs : List V)
      → IsDownClosed p
      → p x ≡ false
      → All (λ y. n.lt y x ≡ false) xs
      → any_value (λ y. not (p y) && f y) xs ≡ any_value f xs
  skipped_later p f x [] d h a = refl
  skipped_later p f x (y ∷ xs) d h a = ground (arith, d x y a.0, skipped_later p f x xs d h a.1)

module _ {V : Type 0} ⦃e : Key V⦄ (n : Number V) where
  take-prefix :
      (q f : V → Bool) (xs : List V)
      → IsDownClosed n q
      → IsSorted n xs
      → any_value f (take (prefix n q xs) xs) ≡ any_value (λ y. q y && f y) xs
  unfolding prefix
  take-prefix q f [] d s = refl
  take-prefix q f (x ∷ xs) d s = elim (Bool-cases (q x)) [
    | inl inside ↦ rw inside (ap (λ b. f x || b) (take-prefix q f xs d s.1))
    | inr outside ↦ rw outside (sym (none_later n q f x xs d outside s.0))
  ]

  take_all :
      (q f : V → Bool) (xs : List V)
      → IsDownClosed n q
      → IsSorted n xs
      → any_value f (take (prefix n q xs - 0) xs) ≡ any_value (λ y. q y && f y) xs
  take_all q f xs c s =
      let same : prefix n q xs - 0 ≡ prefix n q xs = omega arith in rw same (take-prefix q f xs c s)

  none_in :
      (p q f : V → Bool) (x : V) (xs : List V)
      → IsDownClosed n q
      → q x ≡ false
      → All (λ y. n.lt y x ≡ false) xs
      → any_value (λ y. not (p y) && (q y && f y)) xs ≡ false
  none_in p q f x [] c h a = refl
  none_in p q f x (y ∷ xs) c h a = ground (arith, c x y a.0, none_in p q f x xs c h a.1)

  slice-prefix :
      (p q f : V → Bool) (xs : List V)
      → IsDownClosed n p
      → IsDownClosed n q
      → IsSorted n xs
      → any_value f (take (prefix n q xs - prefix n p xs) (drop (prefix n p xs) xs))
        ≡ any_value (λ y. not (p y) && (q y && f y)) xs
  unfolding prefix
  slice-prefix p q f [] d c s = refl
  slice-prefix p q f (x ∷ xs) d c s = elim (Bool-cases (p x)) [
    | inr start ↦ rw start (
        take_all q f (x ∷ xs) c s
        ∙ ap (λ b. (q x && f x) || b) (sym (skipped_later n p (λ y. q y && f y) x xs d start s.0)))
    | inl before ↦ elim (Bool-cases (q x)) [
      | inl inside ↦
          let shift : suc (prefix n q xs) - suc (prefix n p xs) ≡ prefix n q xs - prefix n p xs =
            omega arith in
          rw (before, inside, shift) (slice-prefix p q f xs d c s.1)
      | inr outside ↦
          let nothing : zero - suc (prefix n p xs) ≡ zero = omega arith in
          rw (before, outside, nothing) (sym (none_in p q f x xs c outside s.0))
    ]
  ]

  -- The value is not below the lower bound, and not above the upper one; a bound that is not inclusive
  -- is ruled out too, and one that is `none` is no bound.
  abbrev pub above : Option V → Bool → V → Bool
  above none inclusive x = true
  above (some v) inclusive x = if inclusive then not (n.lt x v) else n.lt v x

  abbrev pub below : Option V → Bool → V → Bool
  below none inclusive x = true
  below (some v) inclusive x = if inclusive then not (n.lt v x) else n.lt x v

  lt-IsDownClosed : (v : V) → IsLinear n → IsDownClosed n (λ x. n.lt x v)
  lt-IsDownClosed v l x y h k = ground (arith, l.le_trans v x y)

  le-IsDownClosed : (v : V) → IsLinear n → IsDownClosed n (λ x. not (n.lt v x))
  le-IsDownClosed v l x y h k = ground (arith, l.le_trans x y v)

  le_lem :
      (v : V) → ◌≡◌ {A = V → Bool} (λ x. if n.lt v x then false else true) (λ x. not (n.lt v x))
  le_lem v = fun_ext (λ x. ground arith)

  not-above-IsDownClosed :
      (lo : Option V) (inclusive : Bool)
      → IsLinear n
      → IsDownClosed n (λ x. not (above lo inclusive x))
  not-above-IsDownClosed none inclusive l x y h k = absurd (cc)
  not-above-IsDownClosed (some v) true l x y h k = ground (arith, lt-IsDownClosed v l x y h)
  not-above-IsDownClosed (some v) false l x y h k = le-IsDownClosed v l x y h k

  below-IsDownClosed :
      (hi : Option V) (inclusive : Bool) → IsLinear n → IsDownClosed n (below hi inclusive)
  below-IsDownClosed none inclusive l x y h k = refl
  below-IsDownClosed (some v) true l x y h k = le-IsDownClosed v l x y h k
  below-IsDownClosed (some v) false l x y h k = lt-IsDownClosed v l x y h k

  not-not : (b : Bool) → not (not b) ≡ b
  not-not true = refl
  not-not false = refl

  prefix-none : (xs : List V) → prefix n (λ x. false) xs ≡ 0
  unfolding prefix
  prefix-none [] = refl
  prefix-none (x ∷ xs) = refl

  prefix-all : (xs : List V) → prefix n (λ x. true) xs ≡ length xs
  unfolding prefix
  prefix-all [] = refl
  prefix-all (x ∷ xs) = ap suc (prefix-all xs)

  lo_index-prefix :
      (lo : Option V) (inclusive : Bool) (xs : List V)
      → lo_index n lo inclusive xs ≡ prefix n (λ x. not (above lo inclusive x)) xs
  unfolding lo_index bisect_left bisect_right
  lo_index-prefix none inclusive xs = sym (prefix-none xs)
  lo_index-prefix (some v) true xs =
      ap (λ p. prefix n p xs) (fun_ext (λ x. sym (not-not (n.lt x v))))
  lo_index-prefix (some v) false xs = ap (λ p. prefix n p xs) (le_lem v)

  hi_index-prefix :
      (hi : Option V) (inclusive : Bool) (xs : List V)
      → hi_index n hi inclusive xs ≡ prefix n (below hi inclusive) xs
  unfolding hi_index bisect_left bisect_right
  hi_index-prefix none inclusive xs = sym (prefix-all xs)
  hi_index-prefix (some v) true xs = ap (λ p. prefix n p xs) (le_lem v)
  hi_index-prefix (some v) false xs = refl

  elem-ids_of_values :
      (j : Text) (vs : List V) (m : Dict V (List Text))
      → elem j (ids_of_values n vs m) ≡ any_value (λ v. has v j m) vs
  unfolding ids_of_values elem has
  elem-ids_of_values j [] m = refl
  elem-ids_of_values j (v ∷ vs) m = ground (
    arith,
    elem-union j (ids_or_empty (Dicts.get v m)) (ids_of_values n vs m),
    elem-ids_of_values j vs m,
  )

  any_value-in :
      (lo hi : Option V) (lo_inclusive hi_inclusive : Bool) (f : V → Bool)
      → ◌≡◌ {A = V → Bool}
          (λ v. not (not (above lo lo_inclusive v)) && (below hi hi_inclusive v && f v))
          (λ v. above lo lo_inclusive v && (below hi hi_inclusive v && f v))
  any_value-in lo hi li hi_inc f =
      fun_ext (λ v. ap (λ b. b && (below hi hi_inc v && f v)) (not-not (above lo li v)))

  -- In an index that is in memory, and whose values are sorted, a range query finds an id exactly if
  -- one of the values within the bounds has it; whether a bound is itself within is as asked, and a
  -- bound that is not given is none.
  pub elem-range_query :
      (lo hi : Option V) (lo_inclusive hi_inclusive : Bool) (j : Text) (x : Numeric V)
      → IsLinear n
      → x.in_ram ≡ true
      → IsSorted n x.values
      → elem j (range_query n lo hi lo_inclusive hi_inclusive x).0
        ≡ any_value
            (λ v. above lo lo_inclusive v && (below hi hi_inclusive v && has v j x.map))
            x.values
  unfolding range_query range_from
  elem-range_query lo hi li hi_inc j x l ram s =
      rw (ram, lo_index-prefix lo li x.values, hi_index-prefix hi hi_inc x.values)
        (elem-ids_of_values j
            (take
              (prefix n (below hi hi_inc) x.values - prefix n (λ v. not (above lo li v)) x.values)
              (drop (prefix n (λ v. not (above lo li v)) x.values) x.values))
            x.map
          ∙ slice-prefix (λ v. not (above lo li v)) (below hi hi_inc) (λ v. has v j x.map) x.values
              (not-above-IsDownClosed lo li l) (below-IsDownClosed hi hi_inc l) s
          ∙ ap (λ f. any_value f x.values) (any_value-in lo hi li hi_inc (λ v. has v j x.map)))
