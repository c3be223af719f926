-- ===== src/Base/Decimal.antt =====
-- Decimal numbers: what `f"{n}"` prints and `int(s)` reads. `int` takes white space round the digits;
-- the signs and underscores that it takes as well are never written by this program, and count as
-- a `ValueError` here.
use mathlib.Core.Bool.{true, false, ◌&&◌}
use mathlib.Core.List.{[], ◌∷◌, ◌++◌}
use mathlib.Core.Option.{Option, none, some}
use mathlib.Core.Path.{◌≡◌, refl, ◌∙◌, ap}
use mathlib.Core.Logic.{◌≢◌, ◌⊎◌, inl, inr}
use native.Mathlib.Omega.{arith}
use Prim.Native.Nat.{ℕ, zero, suc, ◌+◌, ◌-◌, ◌*◌, ◌/◌, ◌%◌, ◌≤◌, ◌<◌}
use mk_db.Base.Tests.{ltb, leb, if◌then◌else◌, Bool-cases}
use mk_db.Base.Texts.{Text, has_char}
use mk_db.Base.Lists.{length, length-append}
use mk_db.Base.Chars.{is_space, strip, lstrip, rstrip, cons_unless_last_space}

digits_of : ℕ → ℕ → Text
digits_of zero n = []
digits_of (suc fuel) n = elim (ltb n 10) [
  | true ↦ (48 + n) ∷ []
  | false ↦ digits_of fuel (n / 10) ++ ((48 + n % 10) ∷ [])
]

-- `f"{n}"`; a number has no more digits than its successor is large.
unfoldable pub show : ℕ → Text
unfolding digits_of
show n = digits_of (suc n) n

unfoldable read_digits : ℕ → Text → Option ℕ
read_digits acc [] = some acc
read_digits acc (c ∷ s) =
    let rest = read_digits (acc * 10 + (c - 48)) s in if leb 48 c && leb c 57 then rest else none

unfoldable read_number : Text → Option ℕ
unfolding read_digits
read_number [] = none
read_number (c ∷ s) = read_digits 0 (c ∷ s)

-- `int(s)`
unfoldable pub int : Text → Option ℕ
unfolding read_number
int s = read_number (strip s)

-- `f"{n:03d}"`
unfoldable pub show_03d : ℕ → Text
unfolding show
show_03d n = if ltb n 10 then 48 ∷ 48 ∷ show n else if ltb n 100 then 48 ∷ show n else show n

abbrev AreDigits : Text → Type 0
AreDigits [] = Unit {0}
AreDigits (c ∷ s) = (48 ≤ c) × (c ≤ 57) × AreDigits s

AreDigits-append : (s t : Text) → AreDigits s → AreDigits t → AreDigits (s ++ t)
AreDigits-append [] t h k = k
AreDigits-append (c ∷ s) t h k = (h.0, h.1, AreDigits-append s t h.2 k)

digits_of-one : (fuel n : ℕ) → ltb n 10 ≡ true → digits_of (suc fuel) n ≡ (48 + n) ∷ []
unfolding digits_of
digits_of-one fuel n h = ground arith

digits_of-more :
    (fuel n : ℕ)
    → ltb n 10 ≡ false
    → digits_of (suc fuel) n ≡ digits_of fuel (n / 10) ++ ((48 + n % 10) ∷ [])
unfolding digits_of
digits_of-more fuel n h = ground arith

digits_of-AreDigits : (fuel n : ℕ) → AreDigits (digits_of fuel n)
digits_of-AreDigits zero n = unfold digits_of in tt
digits_of-AreDigits (suc fuel) n = elim (Bool-cases (ltb n 10)) [
  | inl one ↦ rw (digits_of-one fuel n one) (omega arith, ground (arith, one), tt)
  | inr more ↦
      rw (digits_of-more fuel n more)
        (AreDigits-append _ _ (digits_of-AreDigits fuel (n / 10)) (omega arith))
]

read_digits-append :
    (acc : ℕ) (s : Text) (c v : ℕ)
    → read_digits acc s ≡ some v
    → 48 ≤ c
    → c ≤ 57
    → read_digits acc (s ++ (c ∷ [])) ≡ some (v * 10 + (c - 48))
unfolding read_digits
read_digits-append acc [] c v h lo hi = ground arith
read_digits-append acc (d ∷ s) c v h lo hi =
    ground (arith, read_digits-append (acc * 10 + (d - 48)) s c v)

read_digits-digits_of : (fuel n : ℕ) → n < fuel → read_digits 0 (digits_of fuel n) ≡ some n
read_digits-digits_of zero n h = elim h [ ]
read_digits-digits_of (suc fuel) n h = elim (Bool-cases (ltb n 10)) [
  | inl one ↦ rw (digits_of-one fuel n one) (unfold read_digits in ground (arith, one))
  | inr more ↦
      let shorter : read_digits 0 (digits_of fuel (n / 10)) ≡ some (n / 10) =
        read_digits-digits_of fuel (n / 10) (ground (arith, more)) in
      let whole : (n / 10) * 10 + (48 + n % 10 - 48) ≡ n = omega arith in
      rw (digits_of-more fuel n more) (
        read_digits-append 0 (digits_of fuel (n / 10)) (48 + n % 10) (n / 10) shorter (omega arith)
          (omega arith)
        ∙ ap some whole)
]

pub digit_not_space : (c : ℕ) → 48 ≤ c → c ≤ 57 → is_space c ≡ false
unfolding is_space
digit_not_space c lo hi = ground arith

lstrip-AreDigits : (s : Text) → AreDigits s → lstrip s ≡ s
unfolding lstrip
lstrip-AreDigits [] h = refl
lstrip-AreDigits (c ∷ s) h = rw (digit_not_space c h.0 h.1) refl

rstrip-AreDigits : (s : Text) → AreDigits s → rstrip s ≡ s
unfolding rstrip
rstrip-AreDigits [] h = refl
rstrip-AreDigits (c ∷ []) h = unfold cons_unless_last_space in rw (digit_not_space c h.0 h.1) refl
rstrip-AreDigits (c ∷ d ∷ s) h = rw (rstrip-AreDigits (d ∷ s) h.2) refl

strip-AreDigits : (s : Text) → AreDigits s → strip s ≡ s
unfolding strip
strip-AreDigits s h = rw (rstrip-AreDigits s h) (lstrip-AreDigits s h)

show-AreDigits : (n : ℕ) → AreDigits (show n)
unfolding show
show-AreDigits n = digits_of-AreDigits (suc n) n

read_digits-show : (n : ℕ) → read_digits 0 (show n) ≡ some n
unfolding show
read_digits-show n = read_digits-digits_of (suc n) n (omega arith)

-- The last digit of a number.
pub show-snoc : (n : ℕ) → (s : Text) × (c : ℕ) × (show n ≡ s ++ (c ∷ [])) × (48 ≤ c) × (c ≤ 57)
unfolding show
show-snoc n = elim (Bool-cases (ltb n 10)) [
  | inl one ↦ ([], 48 + n, digits_of-one n n one, omega arith, ground (arith, one))
  | inr more ↦
      (digits_of n (n / 10), 48 + n % 10, digits_of-more n n more, omega arith, omega arith)
]

read_number-cons : (s : Text) (n : ℕ) → s ≢ [] → read_digits 0 s ≡ some n → read_number s ≡ some n
unfolding read_number
read_number-cons [] n h e = absurd (h refl)
read_number-cons (c ∷ s) n h e = e

snoc-ne-nil : (s : Text) (c : ℕ) → s ++ (c ∷ []) ≢ []
snoc-ne-nil [] c h = cc
snoc-ne-nil (d ∷ s) c h = cc

show-ne-nil : (n : ℕ) → show n ≢ []
show-ne-nil n = let (s, c, e, lo, hi) = show-snoc n in rw e (snoc-ne-nil s c)

int-digits : (s : Text) (n : ℕ) → AreDigits s → s ≢ [] → read_digits 0 s ≡ some n → int s ≡ some n
unfolding int
int-digits s n d h e = rw (strip-AreDigits s d) (read_number-cons s n h e)

-- A number is read back from its decimal form.
pub int-show : (n : ℕ) → int (show n) ≡ some n
int-show n = int-digits (show n) n (show-AreDigits n) (show-ne-nil n) (read_digits-show n)

-- So it is from the form that is padded to three digits.
pub int-show_03d : (n : ℕ) → int (show_03d n) ≡ some n
unfolding show_03d
int-show_03d n = elim (Bool-cases (ltb n 10)) [
  | inl one ↦ rw one (
      int-digits (48 ∷ 48 ∷ show n) n
        (omega arith, omega arith, (omega arith, omega arith, show-AreDigits n)) (λ h. cc)
        (unfold read_digits in read_digits-show n))
  | inr more ↦ elim (Bool-cases (ltb n 100)) [
    | inl two ↦
        rw (more, two)
          (int-digits (48 ∷ show n) n (omega arith, omega arith, show-AreDigits n) (λ h. cc)
            (unfold read_digits in read_digits-show n))
    | inr three ↦ rw (more, three) (int-show n)
  ]
]

has_char-AreDigits : (c : ℕ) (s : Text) → (c < 48) ⊎ (57 < c) → AreDigits s → has_char c s ≡ false
unfolding has_char
has_char-AreDigits c [] h d = refl
has_char-AreDigits c (x ∷ s) h d = ground (arith, has_char-AreDigits c s h d.2)

-- A character that is no digit does not stand in a number.
pub has_char-show : (c n : ℕ) → (c < 48) ⊎ (57 < c) → has_char c (show n) ≡ false
has_char-show c n h = has_char-AreDigits c (show n) h (show-AreDigits n)

cons-AreDigits :
    (s : Text) → AreDigits s → s ≢ [] → (c : ℕ) × (t : Text) × (s ≡ c ∷ t) × ((48 ≤ c) × (c ≤ 57))
cons-AreDigits [] d h = absurd (h refl)
cons-AreDigits (c ∷ s) d h = (c, s, refl, (d.0, d.1))

-- The first digit of a padded number.
pub show_03d-cons : (n : ℕ) → (c : ℕ) × (s : Text) × (show_03d n ≡ c ∷ s) × (48 ≤ c) × (c ≤ 57)
unfolding show_03d
show_03d-cons n = elim (Bool-cases (ltb n 10)) [
  | inl one ↦ (48, 48 ∷ show n, rw one refl, omega arith, omega arith)
  | inr more ↦ elim (Bool-cases (ltb n 100)) [
    | inl two ↦ (48, show n, rw (more, two) refl, omega arith, omega arith)
    | inr three ↦
        let (c, s, e, digits) = cons-AreDigits (show n) (show-AreDigits n) (show-ne-nil n) in
        (c, s, rw (more, three) e, digits.0, digits.1)
  ]
]

-- A number under 1000 has three digits when it is padded.
pub show_03d-three :
    (n : ℕ)
    → n < 1000
    → (a b c : ℕ) × (show_03d n ≡ a ∷ b ∷ c ∷ [])
      × (48 ≤ a)
      × (a ≤ 57)
      × (48 ≤ b)
      × (b ≤ 57)
      × (48 ≤ c)
      × (c ≤ 57)
unfolding show_03d show
show_03d-three zero h = (
  48,
  48,
  48,
  rw (digits_of-one 0 0 refl) refl,
  omega arith,
  omega arith,
  omega arith,
  omega arith,
  omega arith,
  omega arith,
)
show_03d-three (suc zero) h =
    (48, 48, 49, refl, omega arith, omega arith, omega arith, omega arith, omega arith, omega arith)
show_03d-three (suc (suc k)) h = elim (Bool-cases (ltb (suc (suc k)) 10)) [
  | inl one ↦ (
    48,
    48,
    48 + suc (suc k),
    rw (one, digits_of-one (suc (suc k)) (suc (suc k)) one) refl,
    omega arith,
    omega arith,
    omega arith,
    omega arith,
    omega arith,
    ground (arith, one),
  )
  | inr more ↦ elim (Bool-cases (ltb (suc (suc k)) 100)) [
    | inl two ↦ (
      48,
      48 + suc (suc k) / 10,
      48 + suc (suc k) % 10,
      rw
          (
            more,
            two,
            digits_of-more (suc (suc k)) (suc (suc k)) more,
            digits_of-one (suc k) (suc (suc k) / 10) (ground (arith, two)),
          )
          refl,
      omega arith,
      omega arith,
      omega arith,
      ground (arith, two),
      omega arith,
      omega arith,
    )
    | inr three ↦ (
      48 + suc (suc k) / 10 / 10,
      48 + suc (suc k) / 10 % 10,
      48 + suc (suc k) % 10,
      rw
          (
            more,
            three,
            digits_of-more (suc (suc k)) (suc (suc k)) more,
            digits_of-more (suc k) (suc (suc k) / 10) (ground (arith, three)),
            digits_of-one k (suc (suc k) / 10 / 10) (ground (arith, h)),
          )
          refl,
      omega arith,
      omega (arith, h),
      omega arith,
      omega arith,
      omega arith,
      omega arith,
    )
  ]
]

length-digits_of_more :
    (fuel n : ℕ)
    → ltb n 10 ≡ false
    → length (digits_of (suc fuel) n) ≡ length (digits_of fuel (n / 10)) + 1
length-digits_of_more fuel n h =
    rw (digits_of-more fuel n h) (length-append (digits_of fuel (n / 10)) ((48 + n % 10) ∷ []))

length-digits_of_pos : (fuel n : ℕ) → 1 ≤ length (digits_of (suc fuel) n)
length-digits_of_pos fuel n = elim (Bool-cases (ltb n 10)) [
  | inl one ↦ rw (digits_of-one fuel n one) (omega arith)
  | inr more ↦ omega (arith, length-digits_of_more fuel n more)
]

length-show : (n : ℕ) → 1000 ≤ n → 4 ≤ length (show n)
unfolding show
length-show zero h = absurd (omega arith)
length-show (suc zero) h = absurd (omega arith)
length-show (suc (suc zero)) h = absurd (omega arith)
length-show (suc (suc (suc k))) h = omega (
  arith,
  length-digits_of_more (suc (suc (suc k))) (suc (suc (suc k))) (ground (arith, h)),
  length-digits_of_more (suc (suc k)) (suc (suc (suc k)) / 10) (ground (arith, h)),
  length-digits_of_more (suc k) (suc (suc (suc k)) / 10 / 10) (ground (arith, h)),
  length-digits_of_pos k (suc (suc (suc k)) / 10 / 10 / 10),
)

four-AreDigits :
    (s : Text)
    → AreDigits s
    → 4 ≤ length s
    → (a b c d : ℕ) × (t : Text) × (s ≡ a ∷ b ∷ c ∷ d ∷ t) × (48 ≤ d)
four-AreDigits [] h l = absurd (omega arith)
four-AreDigits (a ∷ []) h l = absurd (omega arith)
four-AreDigits (a ∷ b ∷ []) h l = absurd (omega arith)
four-AreDigits (a ∷ b ∷ c ∷ []) h l = absurd (omega arith)
four-AreDigits (a ∷ b ∷ c ∷ d ∷ t) h l = (a, b, c, d, t, refl, h.2.2.2.0)

-- From 1000 on a number has four digits or more.
pub show_03d-four :
    (n : ℕ) → 1000 ≤ n → (a b c d : ℕ) × (t : Text) × (show_03d n ≡ a ∷ b ∷ c ∷ d ∷ t) × (48 ≤ d)
unfolding show_03d
show_03d-four n h =
    let plain : show_03d n ≡ show n = ground (arith, h) in
    rw plain (four-AreDigits (show n) (show-AreDigits n) (length-show n h))
