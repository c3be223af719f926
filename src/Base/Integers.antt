-- ===== src/Base/Integers.antt =====
-- Python's `int` over the native numbers, as far as slices of a list use it.
use Prim.Native.Nat.{ℕ, suc, ◌+◌, ◌-◌}
use mathlib.Core.List.{List}
use mk_db.Base.Lists.{take, drop, length}
use mk_db.Base.Tests.{ltb, if◌then◌else◌}

-- `negsuc n` is -n - 1.
pub data ℤ : Type 0 where
  pos negsuc : ℕ → ℤ

infixl 60 ◌+ℤ◌
abbrev pub ◌+ℤ◌ : ℤ → ℤ → ℤ
pos a +ℤ pos b = pos (a + b)
pos a +ℤ negsuc b = if ltb b a then pos (a - suc b) else negsuc (b - a)
negsuc a +ℤ pos b = if ltb a b then pos (b - suc a) else negsuc (a - b)
negsuc a +ℤ negsuc b = negsuc (suc (a + b))

-- The place in a list of the length that an index of a slice means; one below the start is the start.
abbrev pub place : ℕ → ℤ → ℕ
place len (pos n) = n
place len (negsuc n) = len - suc n

module _ {ℓ} {A : Type ℓ} where
  -- `xs[i:]` and `xs[i:j]`
  abbrev pub slice_from : ℤ → List A → List A
  slice_from i xs = drop (place (length xs) i) xs

  abbrev pub slice : ℤ → ℤ → List A → List A
  slice i j xs = take (place (length xs) j - place (length xs) i) (drop (place (length xs) i) xs)
