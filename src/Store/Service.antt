-- ===== src/Store/Service.antt =====
-- A whole store, mkdb/db/objects/store.py: the class `store` from `setup` to `teardown`, with its cache,
-- its write queue and what stands behind them. The task scheduler's thread and the printed lines are not
-- part of the state. The constants of the configuration, clocks and random choices are arguments.
pub mod Deletes
pub mod Ids
use mk_db.Base.{
  ℕ, zero, suc, ◌+◌, Text, codes, List, [], ◌∷◌, ◌++◌, Option, none, some, Bool, true, false, Dict,
  Key, ok, raise, ◌>>=◌, if◌then◌else◌, runtime_error, os_error, overflow_error, out_of_fuel,
}
use mk_db.Base.Result.{Result}
use mk_db.Json.{Json, obj, int, Fields, end, field}
use mk_db.Codec.{Codec, Bytes}
use mk_db.Log
use mk_db.Index
use mk_db.Index.{Index}
use mk_db.Index.Bootstrap.{open_index}
use mk_db.Disk.{Disk}
use mk_db.Cache
use mk_db.Cache.{Cache, CleanType}
use mk_db.Numeric.{Number}
use mk_db.Query.Eval.{Engine}
use mk_db.Query.Upkeep.{Schema, on_delete, save_all, boot}
use mk_db.EventLog.{Event, emit}
use mk_db.Parity.{ReedSolo, Parity, boot_verify_all}
use mk_db.Dispatcher
use mk_db.Dispatcher.{Dispatcher, System}
use mk_db.WriteQueue.{Queue, Handler, Turn, flushes, stops}
use mk_db.WriteQueue
use mk_db.Store.Backend.{Backend, invalidate_cache}

pub record Service (V : Type 0) : Type 0 where
  pub name : Text
  pub workers : Dispatcher.Config
  pub cache : Cache
  pub queue : Queue
  pub backend : Backend V

-- What `setup` takes from the configuration.
pub record Settings : Type 0 where
  pub name : Text
  pub store_path : Text
  pub segment_threshold : ℕ
  pub blob_threshold : ℕ
  pub nested_queries_enabled : Bool
  pub parity_nsym : ℕ
  pub max_size : ℕ
  pub ttl : ℕ
  pub clean_type : CleanType
  pub debounce_window : ℕ
  pub max_pending : ℕ
  pub auto_discover_on_boot : Bool
  pub schema : Schema
  pub memory_threshold : ℕ
  pub workers : Dispatcher.Config

-- The directory of the store, with the files of its indexes.
pub record Directory : Type 0 where
  pub index_file : Option Text
  pub files : Dict Text Bytes
  pub field_files : Text → Option Text

-- `WriteQueue(debounce_window, max_pending)`
unfoldable new_queue : ℕ → ℕ → Queue
new_queue debounce_window max_pending = record {
  debounce_window = debounce_window;
  max_pending = max_pending;
  queue = [];
  pending = [];
  timers = [];
  dead_letter = [];
  stopped = false;
}

module _ {V : Type 0} ⦃e : Key V⦄ (num : Number V) (c : Codec) (rs : ReedSolo) where
  module _ (lower : Text → Text) (text_of : Json → Text) where
    -- `setup` behind the index: the parity files, the cache, the queue and the query indexes.
    unfoldable set_up_with :
        Settings → ℕ → Directory → List Event → Log.Log → Index → Service V × List Event
    unfolding boot_verify_all Cache.init new_queue boot emit
    set_up_with x now dir events lmgr idx =
        let parity : Parity = record { service = x.name; nsym = x.parity_nsym } in
        let (verified, events') = boot_verify_all rs now parity lmgr (
          emit now (codes "info") (codes "store:" ++ x.name)
            (codes "Store loaded from " ++ x.store_path) events) in
        let disk : Disk = record {
          nested = x.nested_queries_enabled;
          blob_threshold = x.blob_threshold;
          index = idx;
          log = verified;
        } in
        let (schema, engine) =
          boot num x.auto_discover_on_boot lower text_of c x.memory_threshold dir.field_files disk
            x.schema in
        (
          record {
            name = x.name;
            workers = x.workers;
            cache = Cache.init x.max_size x.ttl x.clean_type;
            queue = new_queue x.debounce_window x.max_pending;
            backend = record {
              disk = disk;
              schema = schema;
              engine = engine;
              parity = parity;
              dispatcher = none;
            };
          },
          events',
        )

    -- `setup`
    unfoldable set_up :
        (Bytes → Text) → Settings → ℕ → Directory → List Event → Result (Service V × List Event)
    unfolding open_index set_up_with
    set_up lossy x now dir events = do
      let lmgr = Log.init x.name x.segment_threshold dir.files
      idx ← open_index c lossy x.name dir.index_file lmgr.files
      ok (set_up_with x now dir events lmgr idx)

    -- The old values leave the query indexes, if there are any.
    unfoldable pub forget : Text → Option Fields → Engine V → Bool × Engine V
    unfolding on_delete
    forget id none g = (false, g)
    forget id (some end) g = (false, g)
    forget id (some (field k v d)) g = on_delete num lower text_of id (field k v d) g

    -- `delete` behind the cache's and the index's: `old` is what the cache gives then.
    unfoldable pub delete_behind : Text → Option Fields × Cache → Service V → Result (Service V)
    unfolding forget invalidate_cache
    delete_behind id (old, cache') s =
        let (failed, engine') = forget id old s.backend.engine in
        if failed
        then raise overflow_error
        else ok (record s {
          cache = cache';
          backend = record s.backend {
            disk = record s.backend.disk { index = Index.delete id s.backend.disk.index };
            engine = engine';
            dispatcher = invalidate_cache id none s.backend.dispatcher;
          };
        })

    -- `delete`: out of the cache and of the index; then the cache is asked for the old values.
    unfoldable pub delete : ℕ → ℕ → Text → Service V → Result (Service V)
    unfolding delete_behind
    delete now later id s = do
      found ← Cache.get now later id (Cache.delete id s.cache)
      delete_behind id found s

-- The property `dispatcher`, which makes and starts one on the first call.
unfoldable dispatcher_of : System → ℕ → Text → Dispatcher.Config → Option Dispatcher → Dispatcher
unfolding Dispatcher.start Dispatcher.init
dispatcher_of o now name config none = Dispatcher.start o now (Dispatcher.init name config now)
dispatcher_of o now name config (some d) = d

module _ {V : Type 0} where
  -- `query`, to the wait for the result.
  unfoldable pub query :
      System → ℕ → Text → Fields → Text → Service V → Result (Unit {0}) × Service V
  unfolding dispatcher_of Dispatcher.put_task
  query o now operation params task_id s =
      let d = dispatcher_of o now s.name s.workers s.backend.dispatcher in
      let (r, d') = Dispatcher.put_task o now operation params task_id d in
      (r, record s { backend = record s.backend { dispatcher = some d' } })

  -- `stop`; the dispatcher that was stopped is dropped.
  unfoldable pub stop : Service V → Service V
  stop s = record s { backend = record s.backend { dispatcher = none } }

unfoldable save_index : Index → Index
unfolding Index.save_full
save_index i = if i.dirty then Index.save_full i else i

-- `teardown`. `before` and `behind` are what happens in the write queue between `flush_all` and `stop`,
-- and behind `stop` until its worker has ended or the join of ten seconds has; `waiting` is where the
-- worker is. An index that cannot be saved ends it.
unfoldable teardown :
    {V : Type 0}
    → ⦃e : Key V⦄ → Number V
    → Codec
    → Dict Text (Handler (Backend V))
    → (Text → Bool)
    → Bool
    → List Turn
    → List Turn
    → ℕ
    → Service V
    → List Event
    → Result (Service V × List Event)
unfolding save_index stop WriteQueue.run save_all emit
teardown num c handlers fails waiting before behind now s events = do
  (w, b) ←
      WriteQueue.run handlers (flushes now ∷ (before ++ (stops now ∷ behind)))
        (record { queue = s.queue; waiting = waiting; ended = false }) s.backend
  let (failed, engine') = save_all num fails c b.engine
  ended ← if failed then raise os_error else ok engine'
  ok (
    stop (record s {
      queue = w.queue;
      backend = record b {
        engine = ended;
        disk = record b.disk { index = save_index b.disk.index };
      };
    }),
    emit now (codes "info") (codes "store:" ++ s.name)
        (codes "Store shutting down — flushing writes") events,
  )

-- The loop over the random candidates of one length.
unfoldable pub first_free : Index → List Text → Option Text
unfolding Index.get
first_free i [] = none
first_free i (id ∷ ids) = elim (Index.get id i) [ none ↦ some id | some e ↦ first_free i ids ]

-- `generate_id`: the id, and the token length that the configuration then has. `attempts n` are the 200
-- candidates of length `n`; each round of the loop has a longer one.
unfoldable pub generate_id : (ℕ → List Text) → Bool → Index → ℕ → ℕ → Result (Text × ℕ)
unfolding first_free
generate_id attempts auto_expand i zero len = raise out_of_fuel
generate_id attempts auto_expand i (suc n) len =
    let rest = generate_id attempts auto_expand i n (len + 1) in
    elim (first_free i (attempts len)) [
      | some id ↦ ok (id, len)
      | none ↦ if auto_expand then rest else raise runtime_error
    ]
