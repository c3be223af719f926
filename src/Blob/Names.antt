-- ===== src/Blob/Names.antt =====
-- The file of a blob lies in the folder of blobs, and is shared by ids that differ.
use mk_db.Base.{ℕ, ◌≡◌, refl, Text, [], ◌∷◌, Bool, false, ◌||◌, ◌&&◌, ◌==◌, has_char, arith, ◌≢◌}
use mk_db.Blob.{replace_char, replace_dots, safe_id}

-- ".." stands in the text.
pub has_dots : Text → Bool
has_dots [] = false
has_dots (c ∷ []) = false
has_dots (c ∷ d ∷ s) = (c == b'.' && d == b'.') || has_dots (d ∷ s)

has_char-replace_char_self : (a b : ℕ) (s : Text) → b ≢ a → has_char a (replace_char a b s) ≡ false
unfolding has_char replace_char
has_char-replace_char_self a b [] h = refl
has_char-replace_char_self a b (c ∷ s) h = ground (arith, has_char-replace_char_self a b s)

has_char-replace_char :
    (a b x : ℕ) (s : Text) → has_char x s ≡ false → b ≢ x → has_char x (replace_char a b s) ≡ false
unfolding has_char replace_char
has_char-replace_char a b x [] h k = refl
has_char-replace_char a b x (c ∷ s) h k = ground (arith, has_char-replace_char a b x s)

has_char-replace_dots :
    (x : ℕ) (s : Text) → has_char x s ≡ false → b'_' ≢ x → has_char x (replace_dots s) ≡ false
unfolding has_char replace_dots
has_char-replace_dots x [] h k = refl
has_char-replace_dots x (c ∷ []) h k = h
has_char-replace_dots x (c ∷ d ∷ s) h k =
    ground (arith, has_char-replace_dots x s, has_char-replace_dots x (d ∷ s))

-- What the replacement puts first: the first character, or "_".
first_dot : Text → Bool
first_dot [] = false
first_dot (c ∷ s) = c == b'.'

has_dots-cons : (c : ℕ) (s : Text) → has_dots (c ∷ s) ≡ ((c == b'.' && first_dot s) || has_dots s)
unfolding has_dots first_dot
has_dots-cons c [] = ground arith
has_dots-cons c (d ∷ s) = refl

first_dot-replace_dots : (s : Text) → first_dot s ≡ false → first_dot (replace_dots s) ≡ false
unfolding first_dot replace_dots
first_dot-replace_dots [] h = refl
first_dot-replace_dots (c ∷ []) h = h
first_dot-replace_dots (c ∷ d ∷ s) h = ground arith

has_dots-replace_dots : (s : Text) → has_dots (replace_dots s) ≡ false
unfolding replace_dots first_dot
has_dots-replace_dots [] = unfold has_dots in refl
has_dots-replace_dots (c ∷ []) = unfold has_dots in refl
has_dots-replace_dots (c ∷ d ∷ s) = ground (
  arith,
  has_dots-cons c (replace_dots (d ∷ s)),
  has_dots-cons b'_' (replace_dots s),
  first_dot-replace_dots (d ∷ s),
  has_dots-replace_dots s,
  has_dots-replace_dots (d ∷ s),
)

-- The id as it stands in the path of a blob, between the folder and ".dat", has no slash, no backslash
-- and no "..".
pub safe_id_stays :
    (id : Text)
    → (has_char b'/' (safe_id id) ≡ false)
      × (has_char b'\\' (safe_id id) ≡ false)
      × (has_dots (safe_id id) ≡ false)
unfolding safe_id
safe_id_stays id =
    let slashless = replace_char b'/' b'_' id in
    let plain = replace_char b'\\' b'_' slashless in
    (
      has_char-replace_dots b'/' plain
          (has_char-replace_char b'\\' b'_' b'/' slashless
            (has_char-replace_char_self b'/' b'_' id (omega arith)) (omega arith))
          (omega arith),
      has_char-replace_dots b'\\' plain
          (has_char-replace_char_self b'\\' b'_' slashless (omega arith)) (omega arith),
      has_dots-replace_dots plain,
    )
