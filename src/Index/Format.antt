-- ===== src/Index/Format.antt =====
-- A line of the index file is read back as what was written.
use mk_db.Base.{
  ℕ, ◌≡◌, ◌≢◌, refl, ◌∙◌, ap, Text, [], ◌∷◌, ◌++◌, false, Dict, put, text_key, has_char, split,
  show, ok, arith, IsLine, is_space, split-append, show-snoc, int-show, has_char-show,
  digit_not_space,
}
use mk_db.Index.{Entry, entry_line, join, last_two, load_parts, load_entry}
use mathlib.Core.List.{append_assoc}

-- The ids that the format can hold: no separator and no end of line, and neither a space nor the
-- mark of a tombstone at the front.
abbrev pub IsFront : Text → Type 0
IsFront [] = Unit {0}
IsFront (c ∷ s) = (is_space c ≡ false) × (c ≢ b'!')

pub record IsPlainId (id : Text) : Type 0 where
  pub front : IsFront id
  pub colon : has_char b':' id ≡ false
  pub line : IsLine id

pub record IsPlainSegment (s : Text) : Type 0 where
  pub colon : has_char b':' s ≡ false
  pub line : IsLine s

pub split-plain : (s : Text) → has_char b':' s ≡ false → split b':' s ≡ s ∷ []
unfolding split has_char
split-plain [] h = refl
split-plain (c ∷ s) h = ground (arith, split-plain s)

pub split-entry_line :
    (id : Text) (e : Entry)
    → IsPlainId id
    → IsPlainSegment e.segment_seq
    → split b':' (entry_line id e) ≡ id ∷ e.segment_seq ∷ show e.offset ∷ show e.size ∷ []
unfolding entry_line
split-entry_line id e p q =
    split-append b':' id _ p.colon
    ∙ ap (◌∷◌ id) (
        split-append b':' e.segment_seq _ q.colon
        ∙ ap (◌∷◌ e.segment_seq) (
            split-append b':' (show e.offset) _ (has_char-show b':' e.offset (omega arith))
            ∙ ap (◌∷◌ (show e.offset))
                (split-plain (show e.size) (has_char-show b':' e.size (omega arith)))))

pub load_entry-line :
    (id : Text) (e : Entry) (m : Dict Text Entry)
    → IsPlainId id
    → IsPlainSegment e.segment_seq
    → load_entry (split b':' (entry_line id e)) m ≡ ok (put id e m)
load_entry-line id e m p q =
    rw (split-entry_line id e p q)
      (unfold load_entry load_parts last_two join in rw (int-show e.size, int-show e.offset) refl)

-- The line ends with a digit.
pub entry_line-snoc :
    (id : Text) (e : Entry)
    → (s : Text) × (c : ℕ) × (entry_line id e ≡ s ++ (c ∷ [])) × (is_space c ≡ false)
unfolding entry_line
entry_line-snoc id e =
    let (s, c, same, lo, hi) = show-snoc e.size in
    (
      id ++ (b':' ∷ (e.segment_seq ++ (b':' ∷ (show e.offset ++ (b':' ∷ s))))),
      c,
      rw (same) (simp append_assoc),
      digit_not_space c lo hi,
    )
