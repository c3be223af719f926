-- ===== src/Tests/Stores.antt =====
-- Tests of a store with its cache, its queue and its storage.
use mk_db.Base.{◌≡◌, refl, [], ◌∷◌, some, false, codes, text_key, ok, arith, has_char}
use mk_db.Base.Dicts
use mk_db.Json.{end}
use mk_db.Json.Entries
use mk_db.Json.Entries.{update}
use mk_db.Serializer.{serialize_record}
use mk_db.Cache.{Cache, lru}
use mk_db.Cache.Invariant.{IsValid}
use mk_db.Cache.Delta.{delta_entry, merge_by}
use mk_db.WriteQueue.{Queue, write_of, enqueue, coalesce}
use mk_db.Disk.{Disk, merge, read_storage}
use mk_db.Disk.Writes.{IsStorable}
use mk_db.Store.{Store, write, with_id, read, delete, handle_write}
use mk_db.Store.Reads.{read-write, handle_write-delete}
use mk_db.Tests.Samples.{
  sample, sample_codec, sample_codec-IsUtf8, sample-IsJson, b-IsLineId, disk_b,
}

abbrev empty_queue : Queue
empty_queue = record {
  debounce_window = 5;
  max_pending = 2;
  queue = [];
  pending = [];
  timers = [];
  dead_letter = [];
  stopped = false;
}

abbrev cache_a : Cache
cache_a = record {
  max_size = 1;
  ttl = 60;
  clean_type = lru;
  store = (codes "a", sample) ∷ [];
  access_log = (codes "a", tt) ∷ [];
  freq = (codes "a", 1) ∷ [];
  timestamps = (codes "a", 3) ∷ [];
}

cache_a-IsValid : IsValid cache_a
unfolding Dicts.get
cache_a-IsValid = record {
  logged = λ k. ground arith;
  counted = λ k. ground arith;
  stamped = λ k. ground arith;
  distinct = (refl, tt);
}

-- "a" stands in the cache alone, "b" on disk alone.
abbrev store_ab : Store
store_ab = record { cache = cache_a; queue = empty_queue; disk = disk_b }

-- The queue after a write to "b".
abbrev queue_b : Queue
queue_b = record empty_queue { pending = (codes "b", sample) ∷ []; timers = (codes "b", 9) ∷ [] }

accepts : enqueue 9 (write_of (some (codes "b")) sample) empty_queue ≡ ok queue_b
unfolding enqueue coalesce Dicts.get Dicts.put
accepts = refl

read-write_example :
    (s' s'' : Store) × (write 9 (codes "b") sample store_ab ≡ ok s')
    × (read sample_codec 20 21 (λ n. n) (codes "b") s'
        ≡ ok (
          some (
              with_id
                (codes "b")
                (delta_entry (merge_by false) sample (Dicts.get (codes "b") store_ab.cache.store))),
          s'',
        ))
read-write_example =
    read-write sample_codec 9 20 21 (λ n. n) (codes "b") sample sample store_ab queue_b
      cache_a-IsValid refl accepts (omega arith)

merges : merge false sample end ≡ ok sample
unfolding merge update Entries.put
merges = refl

b-IsStorable : IsStorable sample_codec (codes "b") sample
unfolding has_char serialize_record
b-IsStorable = record {
  utf8 = sample_codec-IsUtf8;
  json = sample-IsJson;
  line_id = b-IsLineId;
  no_return = refl;
}

handle_write-delete_example :
    ((delete (codes "b") store_ab).queue ≡ store_ab.queue)
    × (d : Disk) × (handle_write sample_codec (codes "b") sample (delete (codes "b") store_ab).disk
        ≡ ok d)
    × (read_storage sample_codec (codes "b") d ≡ ok (some sample))
handle_write-delete_example =
    handle_write-delete sample_codec (codes "b") sample sample store_ab merges b-IsStorable
