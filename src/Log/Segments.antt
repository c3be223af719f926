-- ===== src/Log/Segments.antt =====
-- The names of the segments of a log, and the scan that finds them after a restart.
use mathlib.Core.List.{append_assoc, append_cancel_left, append_cancel_right}
use mk_db.Base.{
  ℕ, ◌<◌, ◌≡◌, sym, ◌∙◌, ap, refl, Text, [], ◌∷◌, ◌++◌, some, none, true, ◌&&◌, show_03d,
  show_03d-three, show_03d-four, ◌≤◌, ◌≢◌, int, int-show_03d, codes, arith, text_discrete,
}
use mk_db.Log.{segment_name, strip_prefix, is_digit, match_number, match_segment}

some-injective : (n m : ℕ) → some n ≡ some m → n ≡ m
some-injective n m h = cc

-- Names that differ in their number alone.
pub numbered-injective :
    (service suffix : Text) (n m : ℕ)
    → service ++ (b'_' ∷ (show_03d n ++ suffix)) ≡ service ++ (b'_' ∷ (show_03d m ++ suffix))
    → n ≡ m
numbered-injective service suffix n m h =
    let tails : show_03d n ++ suffix ≡ show_03d m ++ suffix =
      append_cancel_left (service ++ (b'_' ∷ [])) _ _ (
        rw
          (
            append_assoc service (b'_' ∷ []) (show_03d n ++ suffix),
            append_assoc service (b'_' ∷ []) (show_03d m ++ suffix),
          )
          h) in
    let numbers : show_03d n ≡ show_03d m =
      append_cancel_right (show_03d n) (show_03d m) suffix tails in
    some-injective n m (sym (int-show_03d n) ∙ ap int numbers ∙ int-show_03d m)

-- Two segments have two names.
pub segment_name-injective :
    (service : Text) (n m : ℕ) → segment_name service n ≡ segment_name service m → n ≡ m
unfolding segment_name
segment_name-injective service n m h = numbered-injective service (codes ".log") n m h

strip_prefix-append : (p s : Text) → strip_prefix p (p ++ s) ≡ some s
unfolding strip_prefix
strip_prefix-append [] s = refl
strip_prefix-append (c ∷ p) s = ground (arith, strip_prefix-append p s)

match_number-three :
    (a b c n : ℕ)
    → (is_digit a && is_digit b && is_digit c) ≡ true
    → int (a ∷ b ∷ c ∷ []) ≡ some n
    → match_number (a ∷ b ∷ c ∷ codes ".log") ≡ some n
unfolding match_number text_discrete
match_number-three a b c n h k = rw h k

match_number-show_03d : (n : ℕ) → n < 1000 → match_number (show_03d n ++ codes ".log") ≡ some n
match_number-show_03d n h =
    let (a, b, c, e, la, ha, lb, hb, lc, hc) = show_03d-three n h in
    let reads : int (a ∷ b ∷ c ∷ []) ≡ some n = ap int (sym e) ∙ int-show_03d n in
    rw e (match_number-three a b c n (ground (arith, la, ha, lb, hb, lc, hc)) reads)

match_segment-stripped :
    (service x : Text) → match_segment service (service ++ (b'_' ∷ x)) ≡ match_number x
unfolding match_segment
match_segment-stripped service x =
    let stripped : strip_prefix (service ++ (b'_' ∷ [])) (service ++ (b'_' ∷ x)) ≡ some x =
      rw (sym (append_assoc service (b'_' ∷ []) x))
        (strip_prefix-append (service ++ (b'_' ∷ [])) x) in
    rw (stripped, match_segment) refl

-- A scan of the directory takes the name of every segment under 1000 for the segment that it is.
match_segment-segment_name :
    (service : Text) (n : ℕ) → n < 1000 → match_segment service (segment_name service n) ≡ some n
unfolding segment_name
match_segment-segment_name service n h =
    match_segment-stripped service (show_03d n ++ codes ".log") ∙ match_number-show_03d n h

match_number-four : (a b c d : ℕ) (t : Text) → 48 ≤ d → match_number (a ∷ b ∷ c ∷ d ∷ t) ≡ none
unfolding match_number
match_number-four a b c d t h =
    let other : (d ∷ t) ≢ codes ".log" = λ same. absurd (ground (arith, same)) in
    let other_end : (d ∷ t) ≢ (codes ".log" ++ (10 ∷ [])) = λ same. absurd (ground (arith, same)) in
    ground (arith, other, other_end)

-- A scan of the directory takes the name of no segment from 1000 on for a segment.
pub match_segment-segment_name_large :
    (service : Text) (n : ℕ) → 1000 ≤ n → match_segment service (segment_name service n) ≡ none
unfolding segment_name
match_segment-segment_name_large service n h =
    let (a, b, c, d, t, e, digit) = show_03d-four n h in
    match_segment-stripped service (show_03d n ++ codes ".log")
    ∙ (rw e (match_number-four a b c d (t ++ codes ".log") digit))
