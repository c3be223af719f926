-- ===== src/Store.antt =====
-- A store that is set up, mkdb/db/objects/store.py: the class `store` with its cache, its write queue
-- and its storage. The query engine, the workers and the parity files, which `write`, `read` and `delete`
-- notify or do not touch, are not part of the state.
pub mod Reads
pub mod Backend
pub mod Service
use mk_db.Base.{ℕ, Text, Option, none, some, codes, ok, ◌>>=◌}
use mk_db.Base.Result.{Result}
use mk_db.Json.{Fields, str, end, field}
use mk_db.Json.Entries.{update}
use mk_db.Codec.{Codec}
use mk_db.Cache
use mk_db.Cache.{Cache, apply_delta}
use mk_db.WriteQueue.{Queue, Task, write_of, enqueue, flushed}
use mk_db.Index
use mk_db.Disk.{Disk, read_storage, write_to_storage}

pub record Store : Type 0 where
  pub cache : Cache
  pub queue : Queue
  pub disk : Disk

-- `write`: the delta into the cache, and into the queue.
unfoldable pub write : ℕ → Text → Fields → Store → Result Store
write now id delta s = do
  cache' ← apply_delta now id delta s.disk.nested s.cache
  queue' ← enqueue now (write_of (some id) delta) s.queue
  ok (record s { cache = cache'; queue = queue' })

-- `{"_id": record_id, **d}`
unfoldable pub with_id : Text → Fields → Fields
with_id id d = update (field (codes "_id") (str id) end) d

-- A record that was found on disk goes into the cache.
unfoldable fill : ℕ → (ℕ → ℕ) → Text → Option Fields → Store → Result (Option Fields × Store)
unfolding with_id
fill now clock id none s = ok (none, s)
fill now clock id (some d) s = do
  cache' ← Cache.set now clock id d s.cache
  ok (some (with_id id d), record s { cache = cache' })

-- `read`: the cache, and behind it the disk. `later` is the second reading of the clock, which is
-- made by the cache on a hit, and by its `set` on a miss.
unfoldable pub read : Codec → ℕ → ℕ → (ℕ → ℕ) → Text → Store → Result (Option Fields × Store)
unfolding fill with_id
read c now later clock id s = do
  (cached, cache') ← Cache.get now later id s.cache
  elim cached [
    | some d ↦ ok (some (with_id id d), record s { cache = cache' })
    | none ↦ do
      found ← read_storage c id s.disk
      fill later clock id found (record s { cache = cache' })
  ]

-- `delete`: out of the cache and out of the index. A delta that waits in the queue is left there.
unfoldable pub delete : Text → Store → Store
delete id s = record s {
  cache = Cache.delete id s.cache;
  disk = record s.disk { index = Index.delete id s.disk.index };
}

-- The handler of a flushed write, as far as the storage goes.
unfoldable pub handle_write : Codec → Text → Fields → Disk → Result Disk
handle_write c id delta d = do r ← write_to_storage c id delta d; ok r.1
