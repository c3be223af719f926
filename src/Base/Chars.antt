-- ===== src/Base/Chars.antt =====
-- Whitespace, decimal numbers and lines of a text, as Python's `strip`, `int`, f-strings and text
-- files treat them.
use mathlib.Core.Bool.{Bool, false, ◌&&◌, ◌||◌}
use mathlib.Core.List.{List, [], ◌∷◌, ◌++◌, append_assoc}
use mathlib.Core.Path.{◌≡◌, refl, ◌∙◌, ap}
use native.Mathlib.Omega.{arith}
use Prim.Native.Nat.{ℕ}
use mk_db.Base.Tests.{◌==◌, leb, if◌then◌else◌}
use mk_db.Base.Texts.{Text, prepend, has_char, split}

-- `str.isspace` of one character.
unfoldable pub is_space : ℕ → Bool
is_space c =
    (leb 9 c && leb c 13)
    || (leb 28 c && leb c 32)
    || c == 0x85
    || c == 0xa0
    || c == 0x1680
    || (leb 0x2000 c && leb c 0x200a)
    || c == 0x2028
    || c == 0x2029
    || c == 0x202f
    || c == 0x205f
    || c == 0x3000

unfoldable pub lstrip : Text → Text
unfolding is_space
lstrip [] = []
lstrip (c ∷ s) = if is_space c then lstrip s else c ∷ s

-- A character before what is left of the text behind it: the last one goes if it is a space.
unfoldable pub cons_unless_last_space : ℕ → Text → Text
unfolding is_space
cons_unless_last_space c [] = if is_space c then [] else c ∷ []
cons_unless_last_space c (d ∷ s) = c ∷ d ∷ s

unfoldable pub rstrip : Text → Text
unfolding cons_unless_last_space
rstrip [] = []
rstrip (c ∷ s) = cons_unless_last_space c (rstrip s)

-- `s.strip()`
unfoldable pub strip : Text → Text
unfolding lstrip rstrip
strip s = lstrip (rstrip s)

-- The lines of a text file, their ends taken off: "\n", "\r" and "\r\n" all end one. `cr` says that
-- the character before was "\r".
unfoldable lines_from : Bool → Text → List Text
lines_from cr [] = []
lines_from cr (c ∷ s) =
    let rest = lines_from (c == 13) s in
    if c == 10
    then (if cr then rest else [] ∷ rest)
    else if c == 13
    then [] ∷ rest
    else prepend c rest

unfoldable pub lines : Text → List Text
unfolding lines_from
lines s = lines_from false s

-- Lines, each with its end.
unfoldable pub unlines : List Text → Text
unlines [] = []
unlines (l ∷ ls) = l ++ (10 ∷ unlines ls)

-- No end of a line stands in the text.
abbrev pub IsLine : Text → Type 0
IsLine l = (has_char 10 l ≡ false) × (has_char 13 l ≡ false)

lines_from-line :
    (l s : Text) → IsLine l → lines_from false (l ++ (10 ∷ s)) ≡ l ∷ lines_from false s
unfolding lines_from has_char
lines_from-line [] s h = refl
lines_from-line (c ∷ l) s h = ground (arith, lines_from-line l s)

abbrev pub All {ℓ} : {A : Type ℓ} → (A → Type ℓ) → List A → Type ℓ
All P [] = Unit
All P (x ∷ xs) = P x × All P xs

pub lines-unlines : (ls : List Text) → All IsLine ls → lines (unlines ls) ≡ ls
unfolding lines unlines
lines-unlines [] h = unfold lines_from in refl
lines-unlines (l ∷ ls) h = lines_from-line l (unlines ls) h.0 ∙ ap (◌∷◌ l) (lines-unlines ls h.1)

pub unlines-append : (ls ms : List Text) → unlines (ls ++ ms) ≡ unlines ls ++ unlines ms
unfolding unlines
unlines-append [] ms = refl
unlines-append (l ∷ ls) ms = rw (unlines-append ls ms, append_assoc)

pub has_char-append : (c : ℕ) (s t : Text) → has_char c (s ++ t) ≡ (has_char c s || has_char c t)
unfolding has_char
has_char-append c [] t = refl
has_char-append c (d ∷ s) t = ground (arith, has_char-append c s t)

-- Splitting at a separator that stands behind a text without it.
pub split-append :
    (sep : ℕ) (s t : Text) → has_char sep s ≡ false → split sep (s ++ (sep ∷ t)) ≡ s ∷ split sep t
unfolding split has_char
split-append sep [] t h = ground arith
split-append sep (c ∷ s) t h = ground (arith, split-append sep s t)

-- A text that starts and ends with no space is its own `strip`.
rstrip-append : (s : Text) (c : ℕ) → is_space c ≡ false → rstrip (s ++ (c ∷ [])) ≡ s ++ (c ∷ [])
unfolding rstrip
rstrip-append [] c h = unfold cons_unless_last_space in rw h refl
rstrip-append (d ∷ []) c h = rw (rstrip-append [] c h) refl
rstrip-append (d ∷ e ∷ s) c h = rw (rstrip-append (e ∷ s) c h) refl

pub strip-plain :
    (b c : ℕ) (s : Text)
    → is_space b ≡ false
    → is_space c ≡ false
    → strip (b ∷ (s ++ (c ∷ []))) ≡ b ∷ (s ++ (c ∷ []))
unfolding strip
strip-plain b c s h k = rw (rstrip-append (b ∷ s) c k) (unfold lstrip in rw h refl)
