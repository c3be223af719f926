-- ===== src/Store/Backend.antt =====
-- What stands behind the cache of a store, mkdb/db/objects/store.py: storage, query indexes, parity
-- files and query workers, and the two handlers of the write queue that `setup` registers. `to_segment` is `int(v)` of the number of a segment.
pub mod Files
pub mod Sealed
use mk_db.Base.{
  ℕ, ◌+◌, Text, codes, text_key, List, [], ◌∷◌, Option, none, some, Bool, true, false, not, Dict,
  Key, ok, raise, ◌>>=◌, ◌==◌, if◌then◌else◌,
}
use mk_db.Base.Result.{Result}
use mk_db.Json.{Json, null, Fields}
use mk_db.Json.Entries.{get}
use mk_db.Codec.{Codec}
use mk_db.Log
use mk_db.Log.{Log}
use mk_db.Index.{Entry}
use mk_db.Disk.{Disk, write_to_storage, entry_of}
use mk_db.Compactor.{compact_segment}
use mk_db.Numeric.{Number}
use mk_db.Query.Eval.{Engine}
use mk_db.Query.Upkeep.{Schema, write_hook, save_all}
use mk_db.EventLog.{Event}
use mk_db.Parity.{ReedSolo, Parity, generate}
use mk_db.Dispatcher
use mk_db.Dispatcher.{Dispatcher}
use mk_db.WriteQueue.{Task, flushed, direct, sentinel, Handler}

pub record Backend (V : Type 0) : Type 0 where
  pub disk : Disk
  pub schema : Schema
  pub engine : Engine V
  pub parity : Parity
  -- `none` until the first query
  pub dispatcher : Option Dispatcher

-- `invalidate_cache`
unfoldable pub invalidate_cache : Text → Option Entry → Option Dispatcher → Option Dispatcher
unfolding Dispatcher.invalidate
invalidate_cache id meta none = none
invalidate_cache id meta (some d) = some (Dispatcher.invalidate id meta d)

-- What `generate` can raise: `reedsolo` is missing; or it does not take `nsym`, or a file cannot be
-- written.
pub data Fault : Type 0 where
  import_error other_error : Fault

-- What fails around the code: saving the query index of a field, and `generate` of a segment.
pub record Faults : Type 0 where
  pub save : Text → Bool
  pub generate : ℕ → Disk → Option Fault

unfoldable pub seal_unless : Option Fault → ReedSolo → Parity → ℕ → Disk → Disk
unfolding generate
seal_unless (some x) rs p n s = s
seal_unless none rs p n s = record s { log = record s.log { files = generate rs p n s.log.files } }

-- `generate` for a segment of the log, which moves a whole file into its place or raises before.
unfoldable pub seal : Faults → ReedSolo → Parity → ℕ → Disk → Disk
unfolding seal_unless
seal k rs p n s = seal_unless (k.generate n s) rs p n s

-- `except ImportError`
abbrev pub escapes : Option Fault → Bool
escapes (some other_error) = true
escapes _ = false

module _ {V : Type 0} ⦃e : Key V⦄ (num : Number V) (c : Codec) (rs : ReedSolo) (k : Faults) where
  -- The end of `_handle_write`: the old segment is sealed where a new one was begun and the indexes could
  -- be saved. `true` is an exception.
  unfoldable pub on_rollover : ℕ → Backend V → Bool × Backend V
  unfolding save_all seal
  on_rollover seg_before b =
      let (failed, engine') = save_all num k.save c b.engine in
      if b.disk.log.active_segment == seg_before
      then (false, b)
      else if failed
      then (true, record b { engine = engine' })
      else (false, record b { engine = engine'; disk = seal k rs b.parity seg_before b.disk })

  module _ (auto_discover : Bool) (lower : Text → Text) (text_of : Json → Text) where
    -- `_handle_write` behind `_write_to_storage`
    unfoldable pub written :
        Text → Fields → ℕ → (Text × ℕ × ℕ) × Disk → Backend V → Bool × Backend V
    unfolding write_hook invalidate_cache on_rollover
    written id delta seg_before (at, disk') b =
        let (failed, schema', engine') =
          write_hook num auto_discover lower text_of id delta (b.schema, b.engine) in
        let b' : Backend V = record b { disk = disk'; schema = schema'; engine = engine' } in
        if failed
        then (true, b')
        else on_rollover seg_before
            (record b' { dispatcher = invalidate_cache id (some (entry_of at)) b.dispatcher })

    unfoldable pub after_write :
        Text → Fields → Result ((Text × ℕ × ℕ) × Disk) → Backend V → Bool × Backend V
    unfolding written
    after_write id delta (raise x) b = (true, b)
    after_write id delta (ok r) b = written id delta b.disk.log.active_segment r b

    -- `_handle_write`; a task of another operation has no record.
    unfoldable pub handle_write : Handler (Backend V)
    unfolding after_write
    handle_write (flushed id delta ts) b =
        after_write id delta (write_to_storage c id delta b.disk) b
    handle_write (direct op delta) b = (true, b)
    handle_write sentinel b = (true, b)

  -- A segment is compacted, and gets a new parity.
  unfoldable pub compacted : Result ℕ → Backend V → Bool × Backend V
  unfolding compact_segment seal
  compacted (raise x) b = (true, b)
  compacted (ok n) b =
      let disk' = compact_segment c n b.disk in
      (escapes (k.generate n disk'), record b { disk = seal k rs b.parity n disk' })

  unfoldable pub compact_value : (Json → Result ℕ) → Option Json → Backend V → Bool × Backend V
  unfolding compacted
  compact_value to_segment none b = (false, b)
  compact_value to_segment (some null) b = (false, b)
  compact_value to_segment (some v) b = compacted (to_segment v) b

  -- `_handle_compact`
  unfoldable pub handle_compact : (Json → Result ℕ) → Handler (Backend V)
  unfolding compact_value get
  handle_compact to_segment (flushed id delta ts) b =
      compact_value to_segment (get (codes "segment") delta) b
  handle_compact to_segment (direct op delta) b =
      compact_value to_segment (get (codes "segment") delta) b
  handle_compact to_segment sentinel b = (true, b)

  -- The handlers that `setup` registers.
  abbrev pub handlers :
      Bool → (Text → Text) → (Json → Text) → (Json → Result ℕ) → Dict Text (Handler (Backend V))
  handlers auto_discover lower text_of to_segment =
      (codes "write", handle_write auto_discover lower text_of)
      ∷ (codes "compact", handle_compact to_segment)
      ∷ []
