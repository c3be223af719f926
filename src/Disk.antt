-- ===== src/Disk.antt =====
-- The storage of a store that is set up: the index and the log of mkdb/db/objects/store.py, and
-- the two paths to them, `_write_to_storage` and the part of `read` behind the cache.
pub mod Writes
pub mod Others
use mk_db.Base.{
  ℕ, Text, List, [], ◌∷◌, ◌++◌, Option, none, some, Bool, true, false, ltb, if◌then◌else◌, length,
  ok, raise, ◌>>=◌, or_raise, type_error,
}
use mk_db.Base.Result.{Result}
use mk_db.Json.{Json, obj, Fields, end}
use mk_db.Json.Entries.{update}
use mk_db.Objects.{deep_update, partition_object}
use mk_db.Codec.{Codec}
use mk_db.Serializer.{serialize_record, deserialize_record}
use mk_db.Blob.{write_blob}
use mk_db.Log
use mk_db.Log.{Log}
use mk_db.Index
use mk_db.Index.{Index, Entry}

pub record Disk : Type 0 where
  -- `nested_queries_enabled` and `blob_threshold` of the configuration.
  pub nested : Bool
  pub blob_threshold : ℕ
  pub index : Index
  pub log : Log

-- A value that is merged into must be a dictionary.
abbrev dict_or_raise : Json → Result Fields
dict_or_raise (obj d) = ok d
dict_or_raise _ = raise type_error

-- The record of a line, whatever id the line carries.
unfoldable pub record_of : Codec → Text → Result Fields
record_of c line = dict_or_raise (deserialize_record c line).1

-- What an entry leads to, and the record on a line that could be read; a line that could not is
-- an empty record.
unfoldable pub existing_at : Codec → Disk → Option Entry → Result Fields
existing_at c s none = ok end
existing_at c s (some e) = elim (Log.read c e.segment_seq e.offset e.size s.log) [
  | raise _ ↦ ok end
  | ok line ↦ record_of c line
]

unfoldable pub existing : Codec → Text → Disk → Result Fields
existing c id s = existing_at c s (Index.get id s.index)

unfoldable pub merge : Bool → Fields → Fields → Result Fields
merge true delta old = do
  parts ← or_raise type_error (partition_object b'.' delta)
  ok (deep_update old parts)
merge false delta old = ok (update old delta)

-- The line in a blob if it is over the threshold, else at the end of the log.
unfoldable pub place : Codec → Text → Text → Disk → (Text × ℕ × ℕ) × Log
place c id line s =
    if ltb s.blob_threshold (length (c.encode line))
    then (let (at, files) = write_blob c id line s.log.files in
        (at, record s.log { files = files }))
    else Log.append c line s.log

abbrev pub entry_of : Text × ℕ × ℕ → Entry
entry_of (seg, offset, size) = record { segment_seq = seg; offset = offset; size = size }

-- The record in its place, and the index entry that leads to it.
unfoldable pub store_line : Codec → Text → Text → Disk → (Text × ℕ × ℕ) × Disk
unfolding place
store_line c id line s =
    let (at, log') = place c id line s in
    (at, record s { index = Index.set id (entry_of at) s.index; log = log' })

-- `_write_to_storage`
unfoldable pub write_to_storage : Codec → Text → Fields → Disk → Result ((Text × ℕ × ℕ) × Disk)
write_to_storage c id delta s = do
  old ← existing c id s
  full ← merge s.nested delta old
  ok (store_line c id (serialize_record c id full) s)

unfoldable pub read_at : Codec → Disk → Option Entry → Result (Option Fields)
read_at c s none = ok none
read_at c s (some e) = do
  line ← Log.read c e.segment_seq e.offset e.size s.log
  d ← record_of c line
  ok (some d)

-- `read` behind the cache: the record, or `none` where the index has no entry.
unfoldable pub read_storage : Codec → Text → Disk → Result (Option Fields)
read_storage c id s = read_at c s (Index.get id s.index)
