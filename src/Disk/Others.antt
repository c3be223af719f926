-- ===== src/Disk/Others.antt =====
-- A write of one record leaves the others where they were, and keeps every record inside its
-- segment.
use mk_db.Base.{
  ℕ, ◌≡◌, ◌≢◌, refl, sym, ◌∙◌, Text, Option, none, some, false, ltb, length, ok, arith, show_03d,
  text_key, text_discrete,
}
use mk_db.Json.{Fields}
use mk_db.Codec.{Codec}
use mk_db.Serializer.{serialize_record}
use mk_db.Log
use mk_db.Log.{Log}
use mk_db.Log.Append.{Holds, read-append_old, append-Holds}
use mk_db.Index
use mk_db.Index.{Index, Entry}
use mk_db.Disk.{
  Disk, existing, merge, place, entry_of, store_line, write_to_storage, read_at, read_storage,
}
use mk_db.Disk.Writes.{get-set_ne, get-set_self, write-store_line}

-- The entry lies inside a segment of the log.
pub record IsInside (l : Log) (e : Entry) : Type 0 where
  pub number : ℕ
  pub segment : e.segment_seq ≡ show_03d number
  pub slice : Holds l number e.offset e.size

-- So does every entry of the index.
pub record IsHeld (s : Disk) : Type 0 where
  pub at : (j : Text) (e : Entry) → Index.get j s.index ≡ some e → IsInside s.log e

-- A line under the blob threshold goes to the log.
pub place-small :
    (c : Codec) (id line : Text) (s : Disk)
    → ltb s.blob_threshold (length (c.encode line)) ≡ false
    → place c id line s ≡ Log.append c line s.log
unfolding place
place-small c id line s h = rw h refl

IsInside-append :
    (c : Codec) (line : Text) (l : Log) (e : Entry)
    → IsInside l e
    → IsInside (Log.append c line l).1 e
IsInside-append c line l e h = record {
  number = h.number;
  segment = h.segment;
  slice = (read-append_old c line l h.number e.offset e.size h.slice).0;
}

read-append_inside :
    (c : Codec) (line : Text) (l : Log) (e : Entry)
    → IsInside l e
    → Log.read c e.segment_seq e.offset e.size (Log.append c line l).1
      ≡ Log.read c e.segment_seq e.offset e.size l
read-append_inside c line l e h =
    rw (h.segment) (read-append_old c line l h.number e.offset e.size h.slice).1

new-IsInside :
    (c : Codec) (line : Text) (l : Log)
    → IsInside (Log.append c line l).1 (entry_of (Log.append c line l).0)
new-IsInside c line l =
    let (segment, slice) = append-Holds c line l in
    record { number = l.active_segment; segment = segment; slice = slice }

pub store_line-small :
    (c : Codec) (id line : Text) (s : Disk)
    → ltb s.blob_threshold (length (c.encode line)) ≡ false
    → (store_line c id line s).1 ≡ record s {
      index = Index.set id (entry_of (Log.append c line s.log).0) s.index;
      log = (Log.append c line s.log).1;
    }
unfolding store_line
store_line-small c id line s h = rw (place-small c id line s h) refl

read_at-append :
    (c : Codec) (line : Text) (s t : Disk) (o : Option Entry)
    → t.log ≡ (Log.append c line s.log).1
    → ((e : Entry) → o ≡ some e → IsInside s.log e)
    → read_at c t o ≡ read_at c s o
unfolding read_at
read_at-append c line s t none same h = refl
read_at-append c line s t (some e) same h =
    rw (same, read-append_inside c line s.log e (h e refl)) refl

pub set-IsHeld :
    (c : Codec) (id line : Text) (s : Disk) (t : Disk)
    → IsHeld s
    → t ≡ record s {
      index = Index.set id (entry_of (Log.append c line s.log).0) s.index;
      log = (Log.append c line s.log).1;
    }
    → IsHeld t
set-IsHeld c id line s t h same = rw same (record { at = λ j e found. at j e found })
  where
    new : Entry
    new = entry_of (Log.append c line s.log).0

    at :
        (j : Text) (e : Entry)
        → Index.get j (Index.set id new s.index) ≡ some e
        → IsInside (Log.append c line s.log).1 e
    at j e found = elim (text_discrete id j) [
      | yes here ↦
          let same_entry : new ≡ e = ground (arith, get-set_self id new s.index) in
          rw (← same_entry) (new-IsInside c line s.log)
      | no other ↦
          IsInside-append c line s.log e
            (h.at j e (sym (get-set_ne id j new s.index other) ∙ found))
    ]

pub read_storage-other :
    (c : Codec) (id j line : Text) (s t : Disk)
    → IsHeld s
    → t ≡ record s {
      index = Index.set id (entry_of (Log.append c line s.log).0) s.index;
      log = (Log.append c line s.log).1;
    }
    → id ≢ j
    → read_storage c j t ≡ read_storage c j s
unfolding read_storage
read_storage-other c id j line s t h same other =
    let log : t.log ≡ (Log.append c line s.log).1 = rw same refl in
    let entry : Index.get j t.index ≡ Index.get j s.index =
      rw same (get-set_ne id j (entry_of (Log.append c line s.log).0) s.index other) in
    rw entry (read_at-append c line s t (Index.get j s.index) log (h.at j))

-- In a store whose records all lie inside their segments, a write that merges, and whose line is
-- under the blob threshold, leaves what `read` finds under every other id, and keeps all records
-- inside their segments.
pub read-write_to_storage_other :
    (c : Codec) (id j : Text) (delta old full : Fields) (s : Disk)
    → IsHeld s
    → existing c id s ≡ ok old
    → merge s.nested delta old ≡ ok full
    → ltb s.blob_threshold (length (c.encode (serialize_record c id full))) ≡ false
    → id ≢ j
    → (r : (Text × ℕ × ℕ) × Disk) × (write_to_storage c id delta s ≡ ok r)
      × IsHeld r.1
      × (read_storage c j r.1 ≡ read_storage c j s)
read-write_to_storage_other c id j delta old full s h e m small other =
    let line = serialize_record c id full in
    let t : Disk = (store_line c id line s).1 in
    let same = store_line-small c id line s small in
    (
      store_line c id line s,
      write-store_line c id delta old full s e m,
      set-IsHeld c id line s t h same,
      read_storage-other c id j line s t h same other,
    )
