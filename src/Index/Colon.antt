-- ===== src/Index/Colon.antt =====
-- An id with a colon is not read back.
use mathlib.Core.List.{append_assoc}
use mk_db.Base.{
  ℕ, ◌<◌, is_space, false, ◌≡◌, ◌≢◌, refl, ◌∙◌, ap, Text, [], ◌∷◌, ◌++◌, none, some, false, Dict,
  text_key, ok, arith, IsLine, lines, unlines, lines-unlines, strip, split, show, int-show,
  has_char, has_char-append, has_char-show, split-append,
}
use mk_db.Base.Dicts
use mk_db.Index
use mk_db.Index.{
  Entry, Index, entry_line, load, load_lines, load_stripped, load_entry, load_parts, last_two, join,
  append_line,
}
use mk_db.Index.Format.{IsPlainId, IsPlainSegment, IsFront, split-plain}
use mk_db.Index.Replay.{
  strip-entry_line, load_stripped-of_front, IsFront-entry_line, entry_line-ne-nil,
  has_char-entry_line,
}
use mk_db.Index.Durable.{file_text}
use mk_db.Index.Reload.{empty}

-- The same line, read as an entry of the part before the colon.
abbrev pub moved : Text → Entry → Entry
moved b e = record e { segment_seq = b ++ (b':' ∷ e.segment_seq) }

entry_line-moved :
    (a b : Text) (e : Entry) → entry_line (a ++ (b':' ∷ b)) e ≡ entry_line a (moved b e)
unfolding entry_line
entry_line-moved a b e = simp append_assoc

split-moved :
    (a b : Text) (e : Entry)
    → IsPlainId a
    → IsPlainId b
    → IsPlainSegment e.segment_seq
    → split b':' (entry_line (a ++ (b':' ∷ b)) e)
      ≡ a ∷ b ∷ e.segment_seq ∷ show e.offset ∷ show e.size ∷ []
unfolding entry_line
split-moved a b e p r q = rw append_assoc (
    split-append b':' a _ p.colon
    ∙ ap (◌∷◌ a) (
        split-append b':' b _ r.colon
        ∙ ap (◌∷◌ b) (
            split-append b':' e.segment_seq _ q.colon
            ∙ ap (◌∷◌ e.segment_seq) (
                split-append b':' (show e.offset) _ (has_char-show b':' e.offset (omega arith))
                ∙ ap (◌∷◌ (show e.offset))
                    (split-plain (show e.size) (has_char-show b':' e.size (omega arith)))))))

load_entry-moved :
    (a b : Text) (e : Entry) (m : Dict Text Entry)
    → IsPlainId a
    → IsPlainId b
    → IsPlainSegment e.segment_seq
    → load_entry (split b':' (entry_line (a ++ (b':' ∷ b)) e)) m ≡ ok (Dicts.put a (moved b e) m)
load_entry-moved a b e m p r q =
    rw (split-moved a b e p r q)
      (unfold load_entry load_parts last_two join in rw (int-show e.size, int-show e.offset) refl)

IsFront-colon : (a b : Text) → IsFront a → IsFront (a ++ (b':' ∷ b))
unfolding is_space
IsFront-colon [] b f = (refl, omega arith)
IsFront-colon (c ∷ a) b f = f

load_stripped-moved :
    (a b : Text) (e : Entry) (m : Dict Text Entry)
    → IsPlainId a
    → IsPlainId b
    → IsPlainSegment e.segment_seq
    → load_stripped (strip (entry_line (a ++ (b':' ∷ b)) e)) m ≡ ok (Dicts.put a (moved b e) m)
load_stripped-moved a b e m p r q =
    let id = a ++ (b':' ∷ b) in
    let front : IsFront id = IsFront-colon a b p.front in
    rw (strip-entry_line id e front) (
      load_stripped-of_front (entry_line id e) m (IsFront-entry_line id e front)
        (entry_line-ne-nil id e)
      ∙ load_entry-moved a b e m p r q)

no_char-colon :
    (c : ℕ) (a b : Text)
    → has_char c a ≡ false
    → has_char c b ≡ false
    → c < 48
    → has_char c (a ++ (b':' ∷ b)) ≡ false
unfolding has_char
no_char-colon c a b h k low = ground (arith, has_char-append c a (b':' ∷ b))

IsLine-moved :
    (a b : Text) (e : Entry)
    → IsPlainId a
    → IsPlainId b
    → IsPlainSegment e.segment_seq
    → IsLine (entry_line (a ++ (b':' ∷ b)) e)
IsLine-moved a b e p r q = (
  has_char-entry_line 10 (a ++ (b':' ∷ b)) e (no_char-colon 10 a b p.line.0 r.line.0 (omega arith))
      q.line.0 (omega arith),
  has_char-entry_line 13 (a ++ (b':' ∷ b)) e (no_char-colon 13 a b p.line.1 r.line.1 (omega arith))
      q.line.1 (omega arith),
)

ne-colon : (a b : Text) → has_char b':' a ≡ false → a ≢ a ++ (b':' ∷ b)
unfolding has_char
ne-colon a b h same = absurd (ground (arith, has_char-append b':' a (b':' ∷ b)))

-- A file of one line.
load-one_line :
    (l : Text) (m : Dict Text Entry)
    → IsLine l
    → load_stripped (strip l) [] ≡ ok m
    → load (l ++ (10 ∷ [])) ≡ ok m
unfolding load
load-one_line l m h k =
    let one : lines (l ++ (10 ∷ [])) ≡ l ∷ [] = unfold unlines in lines-unlines (l ∷ []) (h, tt) in
    rw one (unfold load_lines in rw k refl)

get-one : (a j : Text) (e : Entry) → a ≢ j → Dicts.get j ((a, e) ∷ []) ≡ none
unfolding Dicts.get
get-one a j e h = ground arith

get-one_self : (a : Text) (e : Entry) → Dicts.get a ((a, e) ∷ []) ≡ some e
unfolding Dicts.get
get-one_self a e = ground arith

-- An id that holds a colon is lost when the index is loaded again: a record set in an empty index
-- under two plain ids joined by ":" comes back under the first, with the second as part of its
-- segment, and the id that was set is not found.
pub load-colon :
    (a b : Text) (e : Entry)
    → IsPlainId a
    → IsPlainId b
    → IsPlainSegment e.segment_seq
    → (m : Dict Text Entry) × (load (file_text (Index.set (a ++ (b':' ∷ b)) e empty).file) ≡ ok m)
      × (Dicts.get (a ++ (b':' ∷ b)) m ≡ none)
      × (Dicts.get a m ≡ some (moved b e))
unfolding Index.set append_line Dicts.put
load-colon a b e p r q =
    let id = a ++ (b':' ∷ b) in
    (
      (a, moved b e) ∷ [],
      load-one_line (entry_line id e) ((a, moved b e) ∷ []) (IsLine-moved a b e p r q)
          (load_stripped-moved a b e [] p r q),
      get-one a id (moved b e) (ne-colon a b p.colon),
      get-one_self a (moved b e),
    )
