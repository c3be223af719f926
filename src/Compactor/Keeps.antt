-- ===== src/Compactor/Keeps.antt =====
-- Compaction changes nothing that can be read.
use mk_db.Base.{
  ℕ, ◌≡◌, ◌≢◌, ◌⊎◌, refl, sym, ◌∙◌, ap, Text, List, [], ◌∷◌, ◌++◌, Option, none, some, true, Dict,
  put, contains, text_key, get-put, show_03d, take, drop, ok, raise, arith, Option-cases, inl, inr,
  Bool-cases, ◌==◌, or_else, ◌>>=◌, value_error, HasDistinctKeys, raise-ne-ok, ok-injective,
}
use mk_db.Base.Dicts
use mk_db.Base.Sets.{elem}
use mk_db.Base.Result.{Result}
use mk_db.Codec.{Codec, Bytes, IsUtf8}
use mk_db.Json.{Fields}
use mk_db.Log
use mk_db.Log.{Log, read, read_slice, segment_name, rstrip_newlines, keep_unless_last_newline}
use mk_db.Log.Append.{read-segment, read_slice-of}
use mk_db.Log.Segments.{segment_name-injective}
use mk_db.Index
use mk_db.Index.{Entry, ids_in, records_in_segment}
use mk_db.Disk.{Disk, record_of, read_at, read_storage}
use mk_db.Disk.Others.{IsInside}
use mk_db.Compactor.{Copy, line_of, copy_each, swap_in, compact_ids, compact_segment}
use mk_db.Compactor.Copies.{
  IsCopied, IsFaithful, copy_each-IsFaithful, copy_each_complete, get-move_entries,
}

rstrip_newlines-keep :
    (c : ℕ) (t : Text)
    → rstrip_newlines t ≡ t
    → rstrip_newlines (keep_unless_last_newline c t) ≡ keep_unless_last_newline c t
unfolding rstrip_newlines keep_unless_last_newline
rstrip_newlines-keep c [] h = ground arith
rstrip_newlines-keep c (d ∷ t) h = rw h refl

rstrip_newlines_idem : (s : Text) → rstrip_newlines (rstrip_newlines s) ≡ rstrip_newlines s
unfolding rstrip_newlines
rstrip_newlines_idem [] = refl
rstrip_newlines_idem (c ∷ s) = rstrip_newlines-keep c (rstrip_newlines s) (rstrip_newlines_idem s)

rstrip_newlines-newline : (s : Text) → rstrip_newlines (s ++ (10 ∷ [])) ≡ rstrip_newlines s
unfolding rstrip_newlines
rstrip_newlines-newline [] = unfold keep_unless_last_newline in refl
rstrip_newlines-newline (c ∷ s) = rw (rstrip_newlines-newline s) refl

bad_read :
    (c : Codec) (offset size : ℕ) (b : Bytes)
    → c.decode (take size (drop offset b)) ≡ none
    → read_slice c offset size (some b) ≡ raise value_error
unfolding read_slice
bad_read c offset size b h = rw (h, read_slice) refl

-- A line that was read loses nothing when it is written with its "\n" and read again.
read_slice-stripped :
    (c : Codec) (offset size : ℕ) (b : Option Bytes) (line : Text)
    → read_slice c offset size b ≡ ok line
    → rstrip_newlines (line ++ (10 ∷ [])) ≡ line
unfolding read_slice
read_slice-stripped c offset size none line h = absurd (ground arith)
read_slice-stripped c offset size (some b) line h =
    elim (Option-cases (c.decode (take size (drop offset b)))) [
      | inl bad ↦ absurd (raise-ne-ok value_error line (sym (bad_read c offset size b bad) ∙ h))
      | inr (text, good) ↦ stripped text (sym (read_slice-of c offset size b text good) ∙ h)
    ]
  where
    stripped :
        (text : Text)
        → ok (rstrip_newlines text) ≡ ok line
        → rstrip_newlines (line ++ (10 ∷ [])) ≡ line
    stripped text k =
        let same : rstrip_newlines text ≡ line = ok-injective (rstrip_newlines text) line k in
        rw (rstrip_newlines-newline line, ← same) (rstrip_newlines_idem text)

elem-ids_in :
    (j seq : Text) (e : Entry) (m : Dict Text Entry)
    → Dicts.get j m ≡ some e
    → e.segment_seq ≡ seq
    → elem j (ids_in seq m) ≡ true
unfolding ids_in elem Dicts.get
elem-ids_in j seq e [] h k = absurd (ground arith)
elem-ids_in j seq e ((i, f) ∷ m) h k = ground (arith, elem-ids_in j seq e m)

line_of-read :
    (c : Codec) (l : Log) (e : Entry) (line : Text)
    → Log.read c e.segment_seq e.offset e.size l ≡ ok line
    → line_of c l (some e) ≡ some line
unfolding line_of
line_of-read c l e line h = rw (h, line_of) refl

read-line_of :
    (c : Codec) (l : Log) (e : Entry) (line line' : Text)
    → Log.read c e.segment_seq e.offset e.size l ≡ ok line
    → line_of c l (some e) ≡ some line'
    → line ≡ line'
read-line_of c l e line line' h k = let r = line_of-read c l e line h in cc

-- The record of `j` stands inside a segment, and can be read.
pub record IsReadable (c : Codec) (s : Disk) (j : Text) : Type 0 where
  pub entry : Entry
  pub found : Index.get j s.index ≡ some entry
  pub inside : IsInside s.log entry
  pub line : Text
  pub read : Log.read c entry.segment_seq entry.offset entry.size s.log ≡ ok line

-- The log with another content of the segment `n`.
with_segment : ℕ → Bytes → Log → Log
with_segment n b l = record l { files = put (segment_name l.service n) b l.files }

read-with_segment_self :
    (c : Codec) (n offset size : ℕ) (b : Bytes) (l : Log)
    → read c (show_03d n) offset size (with_segment n b l) ≡ read_slice c offset size (some b)
unfolding with_segment
read-with_segment_self c n offset size b l =
    rw (read-segment c n offset size (with_segment n b l))
      (ap (read_slice c offset size) (ground (arith, get-put name name b l.files)))
  where
    name : Text
    name = segment_name l.service n

read-with_segment_other :
    (c : Codec) (n m offset size : ℕ) (b : Bytes) (l : Log)
    → n ≢ m
    → read c (show_03d m) offset size (with_segment n b l) ≡ read c (show_03d m) offset size l
unfolding with_segment
read-with_segment_other c n m offset size b l h =
    let names : segment_name l.service n ≢ segment_name l.service m =
      λ same. h (segment_name-injective l.service n m same) in
    rw (read-segment c m offset size (with_segment n b l), read-segment c m offset size l)
      (ap (read_slice c offset size) (
        ground
          (arith, names, get-put (segment_name l.service n) (segment_name l.service m) b l.files)))

inside-stripped :
    (c : Codec) (l : Log) (e : Entry) (line : Text)
    → IsInside l e
    → Log.read c e.segment_seq e.offset e.size l ≡ ok line
    → rstrip_newlines (line ++ (10 ∷ [])) ≡ line
inside-stripped c l e line h r =
    read_slice-stripped c e.offset e.size (Dicts.get (segment_name l.service h.number) l.files) line
      (sym (read-segment c h.number e.offset e.size l)
        ∙ (let number : Log.read c e.segment_seq e.offset e.size l
                ≡ Log.read c (show_03d h.number) e.offset e.size l =
              rw (h.segment) refl in
            sym number ∙ r))

-- A record that was copied reads at its new place as it did at the old one.
read-moved :
    (c : Codec) (n : ℕ) (j : Text) (s : Disk) (w : Copy) (e : Entry)
    → IsUtf8 c
    → (h : IsReadable c s j) → IsCopied c (show_03d n) s w j e
    → Log.read c e.segment_seq e.offset e.size (with_segment n w.out s.log) ≡ ok h.line
read-moved c n j s w e u h k =
    let found : line_of c s.log (some h.entry) ≡ some k.line =
      ap (line_of c s.log) (sym h.found) ∙ k.read in
    let same : h.line ≡ k.line = read-line_of c s.log h.entry h.line k.line h.read found in
    let decoded : c.decode (take e.size (drop e.offset w.out)) ≡ some (h.line ++ (10 ∷ [])) =
      rw (k.slice, same) (u.decode-encode (k.line ++ (10 ∷ []))) in
    rw (k.segment, read-with_segment_self c n e.offset e.size w.out s.log)
      (read_slice-of c e.offset e.size w.out (h.line ++ (10 ∷ [])) decoded
        ∙ ap ok (inside-stripped c s.log h.entry h.line h.inside h.read))

-- A record of another segment reads as before.
read-unmoved :
    (c : Codec) (n : ℕ) (j : Text) (s : Disk) (b : Bytes)
    → (h : IsReadable c s j) → h.entry.segment_seq ≢ show_03d n
    → Log.read c h.entry.segment_seq h.entry.offset h.entry.size (with_segment n b s.log)
      ≡ ok h.line
read-unmoved c n j s b h other =
    let differ : n ≢ h.inside.number = λ same. other (h.inside.segment ∙ ap show_03d (sym same)) in
    let number : Log.read c h.entry.segment_seq h.entry.offset h.entry.size s.log
        ≡ Log.read c (show_03d h.inside.number) h.entry.offset h.entry.size s.log =
      rw (h.inside.segment) refl in
    rw (h.inside.segment) (
      read-with_segment_other c n h.inside.number h.entry.offset h.entry.size b s.log differ
      ∙ (sym number ∙ h.read))

-- What `read` makes of a line.
parsed : Codec → Text → Result (Option Fields)
parsed c line = do d ← record_of c line; ok (some d)

read_storage-parsed :
    (c : Codec) (j : Text) (s : Disk) (e : Entry) (line : Text)
    → Index.get j s.index ≡ some e
    → Log.read c e.segment_seq e.offset e.size s.log ≡ ok line
    → read_storage c j s ≡ parsed c line
unfolding read_storage read_at parsed
read_storage-parsed c j s e line found r = rw (found, read_at, r) refl

-- What the index leads to once the copy is in place.
swapped :
    (c : Codec) (n : ℕ) (j : Text) (s : Disk) (w : Copy) (e : Entry) (line : Text)
    → HasDistinctKeys w.new_offsets
    → or_else (Dicts.get j w.new_offsets) (Index.get j s.index) ≡ some e
    → Log.read c e.segment_seq e.offset e.size (with_segment n w.out s.log) ≡ ok line
    → read_storage c j (swap_in n w s) ≡ parsed c line
swapped c n j s w e line d found r =
    read_storage-parsed c j (swap_in n w s) e line
      (unfold swap_in Index.get Index.save_full in
        (get-move_entries j w.new_offsets s.index.map d ∙ found))
      (unfold swap_in with_segment in r)

-- A faithful and complete copy in place of the segment leaves what is read.
swap_in-keeps :
    (c : Codec) (n : ℕ) (j : Text) (s : Disk) (w : Copy)
    → IsUtf8 c
    → (h : IsReadable c s j) → IsFaithful c (show_03d n) s w
    → (h.entry.segment_seq ≡ show_03d n → contains j w.new_offsets ≡ true)
    → read_storage c j (swap_in n w s) ≡ read_storage c j s
swap_in-keeps c n j s w u h f complete =
    swapped_as (Option-cases (Dicts.get j w.new_offsets))
    ∙ sym (read_storage-parsed c j s h.entry h.line h.found h.read)
  where
    swapped_as :
        (Dicts.get j w.new_offsets ≡ none) ⊎ ((e : Entry) × (Dicts.get j w.new_offsets ≡ some e))
        → read_storage c j (swap_in n w s) ≡ parsed c h.line
    swapped_as (inl absent) =
        swapped c n j s w h.entry h.line f.distinct (rw absent h.found)
          (read-unmoved c n j s w.out h (λ same. let here = complete same in absurd (ground arith)))
    swapped_as (inr (e, moved)) =
        swapped c n j s w e h.line f.distinct (rw moved refl)
          (read-moved c n j s w e u h (f.at j e moved))

nothing_copied : Copy
nothing_copied = record { out = []; new_offsets = [] }

nothing_copied-IsFaithful : (c : Codec) (seq : Text) (s : Disk) → IsFaithful c seq s nothing_copied
unfolding nothing_copied Dicts.get
nothing_copied-IsFaithful c seq s = record {
  distinct = tt;
  at = λ id e found. absurd (ground arith);
}

compact_ids-keeps :
    (c : Codec) (n : ℕ) (j : Text) (s : Disk) (ids : List Text)
    → IsUtf8 c
    → (h : IsReadable c s j) → (h.entry.segment_seq ≡ show_03d n → elem j ids ≡ true)
    → read_storage c j (compact_ids c n ids s) ≡ read_storage c j s
unfolding compact_ids nothing_copied
compact_ids-keeps c n j s [] u h listed = refl
compact_ids-keeps c n j s (id ∷ ids) u h listed =
    swap_in-keeps c n j s (copy_each c (show_03d n) s (id ∷ ids) nothing_copied) u h
      (copy_each-IsFaithful c (show_03d n) s (id ∷ ids) nothing_copied
        (nothing_copied-IsFaithful c (show_03d n) s))
      (λ same.
        copy_each_complete c (show_03d n) s (id ∷ ids) j h.line nothing_copied (listed same)
          (ap (line_of c s.log) h.found ∙ line_of-read c s.log h.entry h.line h.read))

listed_in :
    (j seq : Text) (e : Entry) (s : Disk)
    → Index.get j s.index ≡ some e
    → e.segment_seq ≡ seq
    → elem j (records_in_segment seq s.index) ≡ true
unfolding records_in_segment Index.get
listed_in j seq e s found same = elem-ids_in j seq e s.index.map found same

-- If UTF-8 decodes what it encoded, compacting a segment changes nothing for a record that lies
-- inside a segment and can be read: `read` finds the same under its id after it, whether the
-- record was moved, stands in another segment, or nothing was done.
pub read-compact_segment :
    (c : Codec) (n : ℕ) (j : Text) (s : Disk)
    → IsUtf8 c
    → IsReadable c s j
    → read_storage c j (compact_segment c n s) ≡ read_storage c j s
unfolding compact_segment
read-compact_segment c n j s u h = elim (Bool-cases (n == s.log.active_segment)) [
  | inl active ↦ rw active refl
  | inr sealed ↦ rw sealed (
      compact_ids-keeps c n j s (records_in_segment (show_03d n) s.index) u h
        (listed_in j (show_03d n) h.entry s h.found))
]
