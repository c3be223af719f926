-- ===== src/Compactor/Copies.antt =====
-- The copy that compaction makes holds the line of each record at the record's new place.
use mk_db.Base.{
  ◌+◌, ◌≤◌, ◌≡◌, refl, ◌∙◌, Text, List, [], ◌∷◌, ◌++◌, some, true, Dict, put, contains, text_key,
  text_discrete, get-put, length, take, drop, arith, Option-cases, inl, inr, length-append,
  take-drop-append, drop-append, take-length, HasDistinctKeys, put-HasDistinctKeys, or_else,
}
use mk_db.Base.Dicts
use mk_db.Base.Sets.{elem}
use mk_db.Codec.{Codec}
use mk_db.Index
use mk_db.Index.{Entry}
use mk_db.Disk.{Disk}
use mk_db.Compactor.{Copy, write_copy, line_of, copy_each, move_entries}

module _ (c : Codec) (seq : Text) (s : Disk) where
  -- The place `e` in the copy holds the line of `id`.
  pub record IsCopied (w : Copy) (id : Text) (e : Entry) : Type 0 where
    pub line : Text
    pub read : line_of c s.log (Index.get id s.index) ≡ some line
    pub segment : e.segment_seq ≡ seq
    pub inside : e.offset + e.size ≤ length w.out
    pub slice : take e.size (drop e.offset w.out) ≡ c.encode (line ++ (10 ∷ []))

  -- So it is with every place that the copy reports.
  pub record IsFaithful (w : Copy) : Type 0 where
    pub distinct : HasDistinctKeys w.new_offsets
    pub at : (id : Text) (e : Entry) → Dicts.get id w.new_offsets ≡ some e → IsCopied w id e

  write_copy-old :
      (id j line : Text) (w : Copy) (e : Entry)
      → IsCopied w j e
      → IsCopied (write_copy c seq id line w) j e
  unfolding write_copy
  write_copy-old id j line w e h = record {
    line = h.line;
    read = h.read;
    segment = h.segment;
    inside = omega (arith, h.inside, length-append w.out (c.encode (line ++ (10 ∷ []))));
    slice =
        take-drop-append e.size e.offset w.out (c.encode (line ++ (10 ∷ []))) h.inside ∙ h.slice;
  }

  write_copy-new :
      (id line : Text) (w : Copy)
      → line_of c s.log (Index.get id s.index) ≡ some line
      → IsCopied (write_copy c seq id line w) id (record {
        segment_seq = seq;
        offset = length w.out;
        size = length (c.encode (line ++ (10 ∷ [])));
      })
  unfolding write_copy
  write_copy-new id line w h =
      let encoded = c.encode (line ++ (10 ∷ [])) in
      record {
        line = line;
        read = h;
        segment = refl;
        inside = omega (arith, length-append w.out encoded);
        slice = rw (drop-append w.out encoded) (take-length encoded);
      }

  write_copy-at :
      (id j line : Text) (w : Copy) (e : Entry)
      → line_of c s.log (Index.get id s.index) ≡ some line
      → IsFaithful w
      → Dicts.get j (write_copy c seq id line w).new_offsets ≡ some e
      → IsCopied (write_copy c seq id line w) j e
  write_copy-at id j line w e h f found = elim (text_discrete id j) [
    | yes same ↦
        let entry : new ≡ e = unfold write_copy in ground (arith, get-put id j new w.new_offsets) in
        rw (← same, ← entry) (write_copy-new id line w h)
    | no differ ↦
        write_copy-old id j line w e
          (f.at j e (unfold write_copy in ground (arith, get-put id j new w.new_offsets)))
  ]
    where
      new : Entry
      new = record {
        segment_seq = seq;
        offset = length w.out;
        size = length (c.encode (line ++ (10 ∷ [])));
      }

  write_copy-IsFaithful :
      (id line : Text) (w : Copy)
      → line_of c s.log (Index.get id s.index) ≡ some line
      → IsFaithful w
      → IsFaithful (write_copy c seq id line w)
  write_copy-IsFaithful id line w h f = record {
    distinct = unfold write_copy in put-HasDistinctKeys id _ w.new_offsets f.distinct;
    at = λ j e found. write_copy-at id j line w e h f found;
  }

  pub copy_each-IsFaithful :
      (ids : List Text) (w : Copy) → IsFaithful w → IsFaithful (copy_each c seq s ids w)
  unfolding copy_each
  copy_each-IsFaithful [] w f = f
  copy_each-IsFaithful (id ∷ ids) w f =
      elim (Option-cases (line_of c s.log (Index.get id s.index))) [
        | inl none_read ↦ rw (none_read, copy_each) (copy_each-IsFaithful ids w f)
        | inr (line, read) ↦
            rw (read, copy_each)
              (copy_each-IsFaithful ids (write_copy c seq id line w)
                (write_copy-IsFaithful id line w read f))
      ]

  contains-write_copy :
      (id j line : Text) (w : Copy)
      → contains j w.new_offsets ≡ true
      → contains j (write_copy c seq id line w).new_offsets ≡ true
  unfolding write_copy
  contains-write_copy id j line w h = ground (arith, get-put id j new w.new_offsets)
    where
      new : Entry
      new = record {
        segment_seq = seq;
        offset = length w.out;
        size = length (c.encode (line ++ (10 ∷ [])));
      }

  contains-write_copy_self :
      (id line : Text) (w : Copy) → contains id (write_copy c seq id line w).new_offsets ≡ true
  unfolding write_copy
  contains-write_copy_self id line w = ground (arith, get-put id id new w.new_offsets)
    where
      new : Entry
      new = record {
        segment_seq = seq;
        offset = length w.out;
        size = length (c.encode (line ++ (10 ∷ [])));
      }

  contains-copy_each :
      (ids : List Text) (j : Text) (w : Copy)
      → contains j w.new_offsets ≡ true
      → contains j (copy_each c seq s ids w).new_offsets ≡ true
  unfolding copy_each
  contains-copy_each [] j w h = h
  contains-copy_each (id ∷ ids) j w h =
      elim (Option-cases (line_of c s.log (Index.get id s.index))) [
        | inl none_read ↦ rw (none_read, copy_each) (contains-copy_each ids j w h)
        | inr (line, read) ↦
            rw (read, copy_each)
              (contains-copy_each ids j (write_copy c seq id line w)
                (contains-write_copy id j line w h))
      ]

  -- Every record of the list whose line can be read is copied.
  pub copy_each_complete :
      (ids : List Text) (j line : Text) (w : Copy)
      → elem j ids ≡ true
      → line_of c s.log (Index.get j s.index) ≡ some line
      → contains j (copy_each c seq s ids w).new_offsets ≡ true
  unfolding copy_each elem
  copy_each_complete [] j line w m h = absurd (ground arith)
  copy_each_complete (id ∷ ids) j line w m h = elim (text_discrete id j) [
    | yes same ↦
        let read : line_of c s.log (Index.get id s.index) ≡ some line = rw same h in
        let here : contains j (write_copy c seq id line w).new_offsets ≡ true =
          rw (← same) (contains-write_copy_self id line w) in
        rw (read, copy_each) (contains-copy_each ids j (write_copy c seq id line w) here)
    | no differ ↦
        let later : elem j ids ≡ true = ground (arith, differ) in
        elim (Option-cases (line_of c s.log (Index.get id s.index))) [
          | inl none_read ↦ rw (none_read, copy_each) (copy_each_complete ids j line w later h)
          | inr (line', read) ↦
              rw (read, copy_each)
                (copy_each_complete ids j line (write_copy c seq id line' w) later h)
        ]
  ]

-- What a map holds after the moves.
pub get-move_entries :
    (j : Text) (moved m : Dict Text Entry)
    → HasDistinctKeys moved
    → Dicts.get j (move_entries moved m) ≡ or_else (Dicts.get j moved) (Dicts.get j m)
unfolding move_entries Dicts.get
get-move_entries j [] m d = refl
get-move_entries j ((id, e) ∷ moved) m d =
    ground (arith, get-move_entries j moved (put id e m) d.1, get-put id j e m, d.0)
