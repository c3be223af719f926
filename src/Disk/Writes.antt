-- ===== src/Disk/Writes.antt =====
-- What was written to storage is read back, and other records stay.
use mk_db.Base.{
  ℕ, ◌≡◌, ◌≢◌, refl, Text, some, false, ltb, length, ok, arith, has_char, text_key, get-put,
  Bool-cases, inl, inr,
}
use mk_db.Json.{Fields}
use mk_db.Codec.{Codec, IsUtf8, IsJson}
use mk_db.Serializer.{serialize_record}
use mk_db.Serializer.RoundTrip.{IsLineId, deserialize-serialize, serialize-snoc}
use mk_db.Blob.Reads.{read-write_blob}
use mk_db.Log
use mk_db.Log.{Log}
use mk_db.Log.Append.{read-append}
use mk_db.Index
use mk_db.Index.{Index, Entry}
use mk_db.Disk.{
  Disk, record_of, existing_at, existing, merge, place, entry_of, store_line, write_to_storage,
  read_at, read_storage,
}

-- A record that storage can hold under an id.
pub record IsStorable (c : Codec) (id : Text) (d : Fields) : Type 0 where
  pub utf8 : IsUtf8 c
  pub json : IsJson c d
  pub line_id : IsLineId id
  pub no_return : has_char 13 (serialize_record c id d) ≡ false

read-place :
    (c : Codec) (id : Text) (d : Fields) (s : Disk)
    → IsStorable c id d
    → Log.read c
        (place c id (serialize_record c id d) s).0.0
        (place c id (serialize_record c id d) s).0.1
        (place c id (serialize_record c id d) s).0.2
        (place c id (serialize_record c id d) s).1
      ≡ ok (serialize_record c id d)
unfolding place
read-place c id d s h =
    elim (Bool-cases (ltb s.blob_threshold (length (c.encode (serialize_record c id d))))) [
      | inl large ↦
          rw large (read-write_blob c id (serialize_record c id d) s.log h.utf8 h.no_return)
      | inr small ↦
          let (body, e) = serialize-snoc c id d h.json in
          rw (small, e) (read-append c body b'}' s.log h.utf8 (omega arith))
    ]

record_of-serialize :
    (c : Codec) (id : Text) (d : Fields)
    → IsStorable c id d
    → record_of c (serialize_record c id d) ≡ ok d
unfolding record_of
record_of-serialize c id d h = rw (deserialize-serialize c id d h.line_id h.json) refl

pub get-set_self : (id : Text) (e : Entry) (s : Index) → Index.get id (Index.set id e s) ≡ some e
unfolding Index.get Index.set
get-set_self id e s = ground (arith, get-put id id e s.map)

pub get-set_ne :
    (id j : Text) (e : Entry) (s : Index) → id ≢ j → Index.get j (Index.set id e s) ≡ Index.get j s
unfolding Index.get Index.set
get-set_ne id j e s h = ground (arith, get-put id j e s.map)

-- What the index leads to, where the line that is read holds a record.
at_line :
    (c : Codec) (id line : Text) (d : Fields) (e : Entry) (s : Disk)
    → Index.get id s.index ≡ some e
    → Log.read c e.segment_seq e.offset e.size s.log ≡ ok line
    → record_of c line ≡ ok d
    → (read_storage c id s ≡ ok (some d)) × (existing c id s ≡ ok d)
unfolding read_storage existing read_at existing_at
at_line c id line d e s found read r =
    (rw (found, read_at, read, r) refl, rw (found, existing_at, read, r) refl)

-- The record stands where the new index entry says, for `read` and for the next write.
read-store_line :
    (c : Codec) (id : Text) (d : Fields) (s : Disk)
    → IsStorable c id d
    → (read_storage c id (store_line c id (serialize_record c id d) s).1 ≡ ok (some d))
      × (existing c id (store_line c id (serialize_record c id d) s).1 ≡ ok d)
unfolding store_line
read-store_line c id d s h =
    let line = serialize_record c id d in
    at_line c id line d (entry_of (place c id line s).0) (store_line c id line s).1
      (get-set_self id (entry_of (place c id line s).0) s.index) (read-place c id d s h)
      (record_of-serialize c id d h)

pub write-store_line :
    (c : Codec) (id : Text) (delta old full : Fields) (s : Disk)
    → existing c id s ≡ ok old
    → merge s.nested delta old ≡ ok full
    → write_to_storage c id delta s ≡ ok (store_line c id (serialize_record c id full) s)
unfolding write_to_storage
write-store_line c id delta old full s e m = rw (e, write_to_storage, m) refl

-- Where the old record can be read, the merge of a delta into it succeeds and the merged record
-- can be stored under the id, `_write_to_storage` raises nothing. The merged record is then what
-- `read` finds under the id, and what the next write to the id merges into.
pub read-write_to_storage :
    (c : Codec) (id : Text) (delta old full : Fields) (s : Disk)
    → existing c id s ≡ ok old
    → merge s.nested delta old ≡ ok full
    → IsStorable c id full
    → (r : (Text × ℕ × ℕ) × Disk) × (write_to_storage c id delta s ≡ ok r)
      × (read_storage c id r.1 ≡ ok (some full))
      × (existing c id r.1 ≡ ok full)
read-write_to_storage c id delta old full s e m h =
    let (found, again) = read-store_line c id full s h in
    (
      store_line c id (serialize_record c id full) s,
      write-store_line c id delta old full s e m,
      found,
      again,
    )
