-- ===== src/Base/Dicts.antt =====
-- Python's `dict` and `OrderedDict`: an association list in insertion order. A write to a present
-- key keeps its place, and a new key goes to the end.
use Prim.Native.Nat.{◌+◌, ◌≤◌, ◌<◌}
use mathlib.Core.Path.{◌≡◌, refl}
use mathlib.Core.Logic.{ite, ◌≢◌}
use mathlib.Core.Bool.{Bool, true, false}
use mathlib.Core.Option.{Option, none, some}
use mathlib.Core.List.{List, [], ◌∷◌, ◌++◌}
use native.Mathlib.Omega.{arith}
use mk_db.Base.Lists.{length, head?}

-- The keys of a dictionary have a decidable equality.
pub record Key {ℓ} (K : Type ℓ) : Type ℓ where
  pub dec : Discrete K

abbrev pub Dict {ℓ} : Type ℓ → Type ℓ → Type ℓ
Dict K V = List (K × V)

abbrev pub is_some {ℓ} : {A : Type ℓ} → Option A → Bool
is_some none = false
is_some (some _) = true

-- The value of the left side if there is one.
abbrev pub or_else {ℓ} : {A : Type ℓ} → Option A → Option A → Option A
or_else none o = o
or_else (some a) o = some a

module _ {ℓ} {K V : Type ℓ} where
  abbrev pub keys : Dict K V → List K
  keys [] = []
  keys ((k, _) ∷ m) = k ∷ keys m

  -- `next(iter(m))`: the key that stands first.
  abbrev pub first_key : Dict K V → Option K
  first_key m = head? (keys m)

module _ {ℓ} {K V : Type ℓ} ⦃e : Key K⦄ where
  -- `m.get(k)`
  unfoldable pub get : K → Dict K V → Option V
  get k [] = none
  get k ((j, v) ∷ m) = ite (e.dec j k) (some v) (get k m)

  -- `k in m`
  abbrev pub contains : K → Dict K V → Bool
  contains k m = is_some (get k m)

  -- `m[k] = v`
  unfoldable pub put : K → V → Dict K V → Dict K V
  put k v [] = (k, v) ∷ []
  put k v ((j, w) ∷ m) = ite (e.dec j k) ((j, v) ∷ m) ((j, w) ∷ put k v m)

  -- `m.pop(k, None)`
  unfoldable pub remove : K → Dict K V → Dict K V
  remove k [] = []
  remove k ((j, w) ∷ m) = ite (e.dec j k) (remove k m) ((j, w) ∷ remove k m)

  pub get-put :
      (k j : K) (v : V) (m : Dict K V) → get j (put k v m) ≡ ite (e.dec k j) (some v) (get j m)
  unfolding get put
  get-put k j v [] = refl
  get-put k j v ((i, w) ∷ m) = ground (arith, get-put k j v m)

  pub get-remove : (k j : K) (m : Dict K V) → get j (remove k m) ≡ ite (e.dec k j) none (get j m)
  unfolding get remove
  get-remove k j [] = ground arith
  get-remove k j ((i, w) ∷ m) = ground (arith, get-remove k j m)

  pub get-put_self : (k : K) (v : V) (m : Dict K V) → get k (put k v m) ≡ some v
  get-put_self k v m = ground (arith, get-put k k v m)

  pub get-put_ne : (k j : K) (v : V) (m : Dict K V) → k ≢ j → get j (put k v m) ≡ get j m
  get-put_ne k j v m h = ground (arith, get-put k j v m)

  pub get-append : (j : K) (m n : Dict K V) → get j (m ++ n) ≡ or_else (get j m) (get j n)
  unfolding get
  get-append j [] n = refl
  get-append j ((i, w) ∷ m) n = ground (arith, get-append j m n)

  pub length-remove-le : (k : K) (m : Dict K V) → length (remove k m) ≤ length m
  unfolding remove
  length-remove-le k [] = omega arith
  length-remove-le k ((i, w) ∷ m) = ground (arith, length-remove-le k m)

  pub length-remove-lt :
      (k : K) (m : Dict K V) → contains k m ≡ true → length (remove k m) < length m
  unfolding get remove
  length-remove-lt k [] h = ground arith
  length-remove-lt k ((i, w) ∷ m) h = ground (arith, length-remove-le k m, length-remove-lt k m)

  pub contains-first_key : (k : K) (m : Dict K V) → first_key m ≡ some k → contains k m ≡ true
  unfolding get
  contains-first_key k [] h = ground arith
  contains-first_key k ((i, w) ∷ m) h = ground arith

  pub length-put : (k : K) (v : V) (m : Dict K V) → length (put k v m) ≤ length m + 1
  unfolding put
  length-put k v [] = omega arith
  length-put k v ((i, w) ∷ m) = ground (arith, length-put k v m)

  pub length-put_present :
      (k : K) (v : V) (m : Dict K V) → contains k m ≡ true → length (put k v m) ≡ length m
  unfolding get put
  length-put_present k v [] h = ground arith
  length-put_present k v ((i, w) ∷ m) h = ground (arith, length-put_present k v m)

  -- No key stands twice, as in every Python `dict`.
  abbrev pub HasDistinctKeys : Dict K V → Type ℓ
  HasDistinctKeys [] = Unit
  HasDistinctKeys ((k, v) ∷ m) = (get k m ≡ none) × HasDistinctKeys m

  pub put-HasDistinctKeys :
      (k : K) (v : V) (m : Dict K V) → HasDistinctKeys m → HasDistinctKeys (put k v m)
  unfolding put get
  put-HasDistinctKeys k v [] h = (refl, tt)
  put-HasDistinctKeys k v ((j, w) ∷ m) h =
      ground (arith, put-HasDistinctKeys k v m h.1, get-put k j v m)

  pub remove-HasDistinctKeys :
      (k : K) (m : Dict K V) → HasDistinctKeys m → HasDistinctKeys (remove k m)
  unfolding remove get
  remove-HasDistinctKeys k [] h = tt
  remove-HasDistinctKeys k ((j, w) ∷ m) h =
      ground (arith, remove-HasDistinctKeys k m h.1, get-remove k j m)

  pub put-absent : (k : K) (v : V) (m : Dict K V) → get k m ≡ none → put k v m ≡ m ++ (k, v) ∷ []
  unfolding put get
  put-absent k v [] h = refl
  put-absent k v ((j, w) ∷ m) h = ground (arith, put-absent k v m)

  pub remove-append : (k : K) (m n : Dict K V) → remove k (m ++ n) ≡ remove k m ++ remove k n
  unfolding remove
  remove-append k [] n = refl
  remove-append k ((j, w) ∷ m) n = ground (arith, remove-append k m n)

  -- Two entries or more have a key that is not `k`.
  pub other_key :
      (k : K) (m : Dict K V)
      → HasDistinctKeys m
      → 1 < length m
      → (j : K) × (k ≢ j) × (contains j m ≡ true)
  unfolding get
  other_key k [] d h = elim h [ ]
  other_key k ((a, v) ∷ []) d h = absurd (omega arith)
  other_key k ((a, v) ∷ (b, w) ∷ m) d h = elim (e.dec k a) [
    | yes p ↦ (b, ground arith, ground arith)
    | no p ↦ (a, p, ground arith)
  ]
