-- ===== src/Index/Replay.antt =====
-- Reading the index file rebuilds the map, whatever was written, deleted and compacted before.
use mk_db.Base.{
  ℕ, ◌≡◌, ◌≢◌, refl, ◌∙◌, Text, List, [], ◌∷◌, ◌++◌, raise, false, Dict, put, remove, text_key,
  has_char, split, strip, show, ok, ◌>>=◌, arith, IsLine, is_space, has_char-append, strip-plain,
  has_char-show, inl, ◌<◌, lstrip, rstrip, cons_unless_last_space,
}
use mk_db.Base.Result.{Result}
use mk_db.Index.{Entry, entry_line, load_lines, load_stripped, load_entry, first_part}
use mk_db.Index.Format.{
  IsFront, IsPlainId, IsPlainSegment, split-entry_line, load_entry-line, entry_line-snoc,
}

strip-of_front :
    (t s : Text) (c : ℕ) → t ≡ s ++ (c ∷ []) → is_space c ≡ false → IsFront t → strip t ≡ t
strip-of_front t [] c e h f =
    rw e (unfold strip rstrip lstrip cons_unless_last_space in rw h (rw h refl))
strip-of_front t (b ∷ s) c e h f =
    let f' : IsFront (b ∷ (s ++ (c ∷ []))) = rw e at f in rw e (strip-plain b c s f'.0 h)

pub IsFront-entry_line : (id : Text) (e : Entry) → IsFront id → IsFront (entry_line id e)
unfolding entry_line is_space
IsFront-entry_line [] e f = (refl, omega arith)
IsFront-entry_line (c ∷ id) e f = f

pub strip-entry_line :
    (id : Text) (e : Entry) → IsFront id → strip (entry_line id e) ≡ entry_line id e
strip-entry_line id e f =
    let (s, c, same, h) = entry_line-snoc id e in
    strip-of_front (entry_line id e) s c same h (IsFront-entry_line id e f)

pub load_stripped-of_front :
    (t : Text) (m : Dict Text Entry)
    → IsFront t
    → t ≢ []
    → load_stripped t m ≡ load_entry (split b':' t) m
unfolding load_stripped
load_stripped-of_front [] m f h = absurd (h refl)
load_stripped-of_front (c ∷ t) m f h = ground arith

pub entry_line-ne-nil : (id : Text) (e : Entry) → entry_line id e ≢ []
unfolding entry_line
entry_line-ne-nil [] e h = cc
entry_line-ne-nil (c ∷ id) e h = cc

-- A line that `set` wrote, read back.
pub load-entry_line :
    (id : Text) (e : Entry) (m : Dict Text Entry)
    → IsPlainId id
    → IsPlainSegment e.segment_seq
    → load_stripped (strip (entry_line id e)) m ≡ ok (put id e m)
load-entry_line id e m p q = rw (strip-entry_line id e p.front) (
    load_stripped-of_front (entry_line id e) m (IsFront-entry_line id e p.front)
      (entry_line-ne-nil id e)
    ∙ load_entry-line id e m p q)

-- A tombstone, read back.
pub load-tombstone :
    (id : Text) (e : Entry) (m : Dict Text Entry)
    → IsPlainId id
    → IsPlainSegment e.segment_seq
    → load_stripped (strip (b'!' ∷ entry_line id e)) m ≡ ok (remove id m)
load-tombstone id e m p q =
    let (s, c, same, h) = entry_line-snoc id e in
    let whole : strip (b'!' ∷ entry_line id e) ≡ b'!' ∷ entry_line id e =
      rw same (strip-plain b'!' c s (unfold is_space in refl) h) in
    rw whole (unfold load_stripped first_part in rw (split-entry_line id e p q) refl)

pub has_char-entry_line :
    (c : ℕ) (id : Text) (e : Entry)
    → has_char c id ≡ false
    → has_char c e.segment_seq ≡ false
    → c < 48
    → has_char c (entry_line id e) ≡ false
unfolding entry_line has_char
has_char-entry_line c id e h k low =
    let sizes = b':' ∷ show e.size in
    let offsets = b':' ∷ (show e.offset ++ sizes) in
    ground (
      arith,
      has_char-append c id (b':' ∷ (e.segment_seq ++ offsets)),
      has_char-append c e.segment_seq offsets,
      has_char-append c (show e.offset) sizes,
      has_char-show c e.offset (inl low),
      has_char-show c e.size (inl low),
    )

pub IsLine-entry_line :
    (id : Text) (e : Entry) → IsPlainId id → IsPlainSegment e.segment_seq → IsLine (entry_line id e)
IsLine-entry_line id e p q = (
  has_char-entry_line 10 id e p.line.0 q.line.0 (omega arith),
  has_char-entry_line 13 id e p.line.1 q.line.1 (omega arith),
)

pub IsLine-tombstone :
    (id : Text) (e : Entry)
    → IsPlainId id
    → IsPlainSegment e.segment_seq
    → IsLine (b'!' ∷ entry_line id e)
unfolding has_char
IsLine-tombstone id e p q = IsLine-entry_line id e p q

bind_assoc_of {ℓ} :
    {A B C : Type ℓ} (r : Result A) (f : A → Result B) (g : B → Result C) (h : A → Result C)
    → ((a : A) → h a ≡ (f a >>= g))
    → (r >>= h) ≡ ((r >>= f) >>= g)
bind_assoc_of (ok a) f g h e = e a
bind_assoc_of (raise x) f g h e = refl

pub load_lines-append :
    (ls ms : List Text) (m : Dict Text Entry)
    → load_lines (ls ++ ms) m ≡ (load_lines ls m >>= load_lines ms)
unfolding load_lines
load_lines-append [] ms m = refl
load_lines-append (l ∷ ls) ms m =
    bind_assoc_of (load_stripped (strip l) m) (load_lines ls) (load_lines ms)
      (load_lines (ls ++ ms)) (λ m'. load_lines-append ls ms m')
