-- ===== src/Base/Sets.antt =====
-- Python's `set` of ids: a list in the order of insertion, which nothing reads but through `in`, `len`
-- and a loop.
use mathlib.Core.Path.{◌≡◌, refl}
use mathlib.Core.Bool.{Bool, false, ◌&&◌, ◌||◌, not}
use mathlib.Core.List.{List, [], ◌∷◌, ◌++◌}
use native.Mathlib.Omega.{arith}
use mk_db.Base.Tests.{if◌then◌else◌, test}
use mk_db.Base.Texts.{Text, text_discrete}

-- `k in ids`
unfoldable pub elem : Text → List Text → Bool
elem k [] = false
elem k (j ∷ js) = test (text_discrete j k) || elem k js

-- `s.add(k)`
unfoldable pub add : Text → List Text → List Text
add k s = if elem k s then s else s ++ (k ∷ [])

-- `s | t`
unfoldable pub union : List Text → List Text → List Text
union s [] = s
union s (k ∷ t) = union (add k s) t

-- The ids that pass a test, in their order.
unfoldable pub filter : (Text → Bool) → List Text → List Text
filter p [] = []
filter p (k ∷ s) = let rest = filter p s in if p k then k ∷ rest else rest

-- `s & t`
unfoldable pub inter : List Text → List Text → List Text
inter s t = filter (λ k. elem k t) s

-- `s - t`
unfoldable pub minus : List Text → List Text → List Text
minus s t = filter (λ k. not (elem k t)) s

-- `s.discard(k)`
unfoldable pub discard : Text → List Text → List Text
discard k s = filter (λ j. not (test (text_discrete j k))) s

elem-append : (k : Text) (s t : List Text) → elem k (s ++ t) ≡ (elem k s || elem k t)
unfolding elem
elem-append k [] t = refl
elem-append k (j ∷ s) t = ground (arith, elem-append k s t)

pub elem-add :
    (j k : Text) (s : List Text) → elem j (add k s) ≡ (elem j s || test (text_discrete k j))
unfolding add elem
elem-add j k s = elim (text_discrete k j) [
  | yes same ↦ ground (arith, elem-append j s (k ∷ []))
  | no other ↦ ground (arith, elem-append j s (k ∷ []))
]

pub elem-union : (j : Text) (s t : List Text) → elem j (union s t) ≡ (elem j s || elem j t)
unfolding union elem
elem-union j s [] = ground arith
elem-union j s (k ∷ t) = ground (arith, elem-union j (add k s) t, elem-add j k s)

elem-filter : (j : Text) (p : Text → Bool) (s : List Text) → elem j (filter p s) ≡ (elem j s && p j)
unfolding filter elem
elem-filter j p [] = refl
elem-filter j p (k ∷ s) = elim (text_discrete k j) [
  | yes same ↦ rw same (ground (arith, elem-filter j p s))
  | no other ↦ ground (arith, elem-filter j p s)
]

pub elem-inter : (j : Text) (s t : List Text) → elem j (inter s t) ≡ (elem j s && elem j t)
unfolding inter
elem-inter j s t = elem-filter j (λ k. elem k t) s

pub elem-minus : (j : Text) (s t : List Text) → elem j (minus s t) ≡ (elem j s && not (elem j t))
unfolding minus
elem-minus j s t = elem-filter j (λ k. not (elem k t)) s

pub elem-discard :
    (j k : Text) (s : List Text)
    → elem j (discard k s) ≡ (elem j s && not (test (text_discrete j k)))
unfolding discard
elem-discard j k s = elem-filter j (λ i. not (test (text_discrete i k))) s
