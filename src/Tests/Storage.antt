-- ===== src/Tests/Storage.antt =====
-- Tests of the storage of records: log, index, blobs, compaction.
use mk_db.Base.{
  ℕ, ◌+◌, ◌≤◌, ◌<◌, ◌≡◌, ◌≢◌, ◌==◌, refl, Text, List, [], ◌∷◌, ◌++◌, Option, none, some, Bool, true,
  false, Dict, codes, has_char, text_key, text_discrete, arith, is_space, length, ok, show_03d, ltb,
  All,
}
use mk_db.Base.Dicts
use mk_db.Json.{Json, Fields, end, field, obj, int}
use mk_db.Json.Entries.{update}
use mk_db.Serializer.{serialize_record}
use mk_db.Blob.{safe_id}
use mk_db.Blob.Names.{has_dots, safe_id_stays}
use mk_db.Index
use mk_db.Index.{Index, Entry, load}
use mk_db.Index.Format.{IsPlainId, IsPlainSegment}
use mk_db.Index.Durable.{file_text}
use mk_db.Index.Reload.{Op, set, delete, save, run, empty, load-run}
use mk_db.Index.Colon.{moved, load-colon}
use mk_db.Log
use mk_db.Log.{Log, append, segment_name, match_segment}
use mk_db.Log.Segments.{match_segment-segment_name_large}
use mk_db.Disk.{Disk, existing, existing_at, merge, write_to_storage, read_storage}
use mk_db.Disk.Writes.{IsStorable, read-write_to_storage}
use mk_db.Disk.Others.{IsHeld, read-write_to_storage_other}
use mk_db.Compactor.{compact_segment}
use mk_db.Compactor.Keeps.{IsReadable, read-compact_segment}
use mk_db.Tests.Samples.{
  sample, sample_codec, sample_codec-IsUtf8, sample-IsJson, b-IsLineId, empty_disk, entry_b, log_b,
  disk_b, entry_b-IsInside, disk_b-IsHeld,
}

sample-IsStorable : IsStorable sample_codec (codes "b") sample
unfolding has_char serialize_record
sample-IsStorable = record {
  utf8 = sample_codec-IsUtf8;
  json = sample-IsJson;
  line_id = b-IsLineId;
  no_return = refl;
}

nothing_there : (id : Text) → existing sample_codec id empty_disk ≡ ok end
unfolding existing existing_at Index.get Dicts.get
nothing_there id = refl

merged_sample : merge false sample end ≡ ok sample
unfolding merge update mk_db.Json.Entries.put
merged_sample = refl

read-write_to_storage_example :
    (r : (Text × ℕ × ℕ) × Disk) × (write_to_storage sample_codec (codes "b") sample empty_disk
      ≡ ok r)
    × (read_storage sample_codec (codes "b") r.1 ≡ ok (some sample))
    × (existing sample_codec (codes "b") r.1 ≡ ok sample)
read-write_to_storage_example =
    read-write_to_storage sample_codec (codes "b") sample end sample empty_disk
      (nothing_there (codes "b")) merged_sample sample-IsStorable

nothing_at_c : existing sample_codec (codes "c") disk_b ≡ ok end
unfolding existing existing_at Index.get Dicts.get text_discrete
nothing_at_c = refl

small_line :
    ltb 50 (length (sample_codec.encode (serialize_record sample_codec (codes "c") sample))) ≡ false
unfolding serialize_record
small_line = refl

b-ne-c : codes "c" ≢ codes "b"
b-ne-c h = ground arith

read-write_to_storage_other_example :
    (r : (Text × ℕ × ℕ) × Disk) × (write_to_storage sample_codec (codes "c") sample disk_b ≡ ok r)
    × IsHeld r.1
    × (read_storage sample_codec (codes "b") r.1 ≡ read_storage sample_codec (codes "b") disk_b)
read-write_to_storage_other_example =
    read-write_to_storage_other sample_codec (codes "c") (codes "b") sample end sample disk_b
      disk_b-IsHeld nothing_at_c merged_sample small_line b-ne-c

plain :
    (c : ℕ)
    → is_space c ≡ false
    → c ≢ b'!'
    → (c == b':') ≡ false
    → (c == 10) ≡ false
    → (c == 13) ≡ false
    → IsPlainId (c ∷ [])
unfolding has_char
plain c h i j k l = record {
  front = (h, i);
  colon = ground arith;
  line = (ground arith, ground arith);
}

a-IsPlainId : IsPlainId (codes "a")
unfolding is_space
a-IsPlainId = plain b'a' refl (λ h. ground arith) refl refl refl

b-IsPlainId : IsPlainId (codes "b")
unfolding is_space
b-IsPlainId = plain b'b' refl (λ h. ground arith) refl refl refl

first-IsPlainSegment : IsPlainSegment (codes "001")
unfolding has_char
first-IsPlainSegment = record { colon = refl; line = (refl, refl) }

abbrev calls : List Op
calls =
    set (codes "a") entry_b
    ∷ set (codes "b") entry_b
    ∷ delete (codes "a")
    ∷ save
    ∷ set (codes "a") entry_b
    ∷ []

load-run_example : load (file_text (run calls empty).file) ≡ ok (run calls empty).map
load-run_example = load-run calls (
  (a-IsPlainId, first-IsPlainSegment),
  ((b-IsPlainId, first-IsPlainSegment), (tt, (tt, ((a-IsPlainId, first-IsPlainSegment), tt)))),
)

load-colon_example :
    (m : Dict Text Entry) × (load (file_text (Index.set (codes "a:b") entry_b empty).file) ≡ ok m)
    × (Dicts.get (codes "a:b") m ≡ none)
    × (Dicts.get (codes "a") m ≡ some (moved (codes "b") entry_b))
load-colon_example =
    load-colon (codes "a") (codes "b") entry_b a-IsPlainId b-IsPlainId first-IsPlainSegment

line_b-read : Log.read sample_codec (codes "001") 0 11 log_b ≡ ok (codes "b {\"a\": 1}")
unfolding Log.read Log.strip_prefix Log.read_slice Log.segment_name mk_db.Base.int show_03d
    Dicts.get text_discrete mk_db.Base.strip
line_b-read = refl

b-IsReadable : IsReadable sample_codec disk_b (codes "b")
unfolding Index.get Dicts.get text_discrete
b-IsReadable = record {
  entry = entry_b;
  found = refl;
  inside = entry_b-IsInside;
  line = codes "b {\"a\": 1}";
  read = line_b-read;
}

read-compact_segment_example :
    read_storage sample_codec (codes "b") (compact_segment sample_codec 1 disk_b)
    ≡ read_storage sample_codec (codes "b") disk_b
read-compact_segment_example =
    read-compact_segment sample_codec 1 (codes "b") disk_b sample_codec-IsUtf8 b-IsReadable

safe_id_stays_example :
    (has_char b'/' (safe_id (codes "../a/b")) ≡ false)
    × (has_char b'\\' (safe_id (codes "../a/b")) ≡ false)
    × (has_dots (safe_id (codes "../a/b")) ≡ false)
safe_id_stays_example = safe_id_stays (codes "../a/b")

same_file : safe_id (codes "a/b") ≡ safe_id (codes "a_b")
unfolding safe_id
same_file = refl

match_segment-segment_name_large_example :
    match_segment (codes "s") (segment_name (codes "s") 1000) ≡ none
match_segment-segment_name_large_example =
    match_segment-segment_name_large (codes "s") 1000 (omega arith)
