-- ===== src/Tests/Services.antt =====
-- Tests of a whole store, of what stands behind its cache, and of its index rebuilt from the log.
use mk_db.Base.{
  ◌≡◌, ◌≢◌, refl, ℕ, zero, suc, ◌+◌, Text, List, [], ◌∷◌, ◌++◌, Option, none, some, Bool, true,
  false, codes, text_key, text_discrete, arith, ltb, Key, ok, raise, value_error, has_char,
  is_space, show_03d, put, Dict, has_char,
}
use mk_db.Base.Dicts
use mk_db.Base.Result.{Result}
use mk_db.Json.{Json, Fields, end}
use mk_db.Codec.{Bytes}
use mk_db.Serializer.{serialize_record}
use mk_db.Log
use mk_db.Log.{Log, active_bytes, segment_name}
use mk_db.Index
use mk_db.Index.{Index}
use mk_db.Index.Bootstrap.{byte_lines, index_lines}
use mk_db.Index.Rebuild.{IsLineCodec, EndsLine, index_lines-append_record}
use mk_db.Disk.{entry_of, read_storage, write_to_storage, existing, existing_at, merge, store_line}
use mk_db.Cache.{Cache, lru}
use mk_db.Cache.Invariant.{IsValid}
use mk_db.Numeric.{Number}
use mk_db.Parity.{ReedSolo}
use mk_db.WriteQueue.{
  Queue, flushed, drain, drain_each, due, pull, handler_of, dispatch, Handler, Loop, drains, takes,
  begin, take_task, turn, run, Turn, enqueues, flushes, stops, write_of, Task, direct, sentinel,
  flush_all, flush_tasks,
}
use mk_db.WriteQueue.Owed
use mk_db.WriteQueue.Owed.{owed, replay}
use mk_db.WriteQueue.Traced.{traced_all}
use mk_db.WriteQueue.Flushing.{rounds_at, run-flush_all}
use mk_db.Tests.Queues.{waiting, waiting-IsValid}
use mk_db.Store.Backend.{Backend, Faults, handlers, handle_write}
use mk_db.Store.Backend.Sealed.{IsSafe, run-IsSafe}
use mk_db.Store.Service.{Service, delete, first_free, generate_id}
use mk_db.Store.Service.Deletes.{delete-engine}
use mk_db.Store.Service.Ids.{generate_id_total}
use mk_db.Tests.Samples.{sample, sample_codec, sample-IsJson, b-IsLineId, disk_b, log_b, empty_disk}

instance abbrev value_key : Key ℕ
value_key = record { dec = mk_db.Base.ℕ_discrete }

abbrev number : Number ℕ
number = record {
  lt = ltb;
  parse = λ s. none;
  print = λ n. [];
  of_json = λ v. none;
  overflows = λ v. false;
}

abbrev code : ReedSolo
code = record { encode = λ n b. b; decode = λ n b. some b }

-- A store whose segments are full with one record.
abbrev backend : Backend ℕ
backend = record {
  disk = record empty_disk { log = record log_b { active_segment = 1; files = [] } };
  schema = [];
  engine = record { full_text = []; numeric = [] };
  parity = record { service = codes "s"; nsym = 10 };
  dispatcher = none;
}

backend-IsSafe : IsSafe code backend
unfolding Dicts.get
backend-IsSafe = (refl, λ n other bytes found. absurd (cc))

-- Two writes wait on the queue.
abbrev one_task : Queue
one_task = record {
  debounce_window = 5;
  max_pending = 2;
  queue = flushed (codes "b") sample 1 ∷ flushed (codes "c") sample 2 ∷ [];
  pending = [];
  timers = [];
  dead_letter = [];
  stopped = false;
}

abbrev failing : Json → Result ℕ
failing v = raise value_error

abbrev no_faults : Faults
no_faults = record { save = λ f. false; generate = λ n s. none }

abbrev own_handlers : Dict Text (Handler (Backend ℕ))
own_handlers = handlers number sample_codec code no_faults false (λ s. s) (λ v. []) failing

-- The store after the first write, whose segment was closed with a parity, and after the second.
abbrev after_first : Loop × Backend ℕ
after_first =
    take_task own_handlers (record { queue = one_task; waiting = true; ended = false }) backend

abbrev after_second : Loop × Backend ℕ
after_second = take_task own_handlers (record after_first.0 { waiting = true }) after_first.1

first_run :
    run own_handlers
      (takes ∷ [])
      (record { queue = one_task; waiting = true; ended = false })
      backend
    ≡ ok (after_first.0, after_first.1)
unfolding run turn
first_run = refl

second_run :
    run own_handlers (drains 3 ∷ (takes ∷ [])) after_first.0 after_first.1
    ≡ ok (after_second.0, after_second.1)
unfolding run turn begin drain due drain_each take_task pull handler_of Dicts.get text_discrete
    dispatch handle_write write_to_storage existing existing_at Index.get merge store_line
    serialize_record Log.append put show_03d
second_run = refl

after_first-IsSafe : IsSafe code after_first.1
unfolding take_task pull handler_of Dicts.get text_discrete dispatch handle_write write_to_storage
    existing existing_at Index.get merge store_line serialize_record Log.append put show_03d
after_first-IsSafe =
    run-IsSafe number sample_codec code no_faults false (λ s. s) (λ v. []) failing (takes ∷ [])
      (record { queue = one_task; waiting = true; ended = false }) after_first.0 backend
      after_first.1 (λ n s. refl) backend-IsSafe first_run refl

run-IsSafe_example : IsSafe code after_second.1
unfolding take_task pull handler_of Dicts.get text_discrete dispatch handle_write write_to_storage
    existing existing_at Index.get merge store_line serialize_record Log.append put show_03d
    Index.set
run-IsSafe_example =
    run-IsSafe number sample_codec code no_faults false (λ s. s) (λ v. []) failing
      (drains 3 ∷ (takes ∷ [])) after_first.0 after_second.0 after_first.1 after_second.1
      (λ n s. refl) after_first-IsSafe second_run refl

-- Two segments are closed then.
two_closed : after_second.1.disk.log.active_segment ≡ 3
unfolding take_task pull handler_of Dicts.get text_discrete dispatch handle_write write_to_storage
    existing existing_at Index.get merge store_line serialize_record Log.append put show_03d
    Index.set
two_closed = refl

-- A delta waits for "a"; one for "b" comes while the worker waits, and a stop after it took a task.
abbrev turns : List Turn
turns =
    drains 7
    ∷ (enqueues 8 (write_of (some (codes "b")) sample) ∷ (takes ∷ (stops 9 ∷ (takes ∷ []))))

abbrev idle : Loop
idle = record { queue = waiting; waiting = false; ended = false }

-- The worker waits for a task.
abbrev at_get : Loop
at_get = record idle { waiting = true }

direct-ne-sentinel : direct (codes "compact") end ≢ sentinel
direct-ne-sentinel h = cc

run-flush_all_example :
    (w' : Loop) × (s' : Backend ℕ) × (log : List Task) × (run own_handlers
        (flushes 3 ∷ rounds_at (4 ∷ 5 ∷ []))
        idle
        backend
      ≡ ok (w', s'))
    × (run (traced_all own_handlers) (flushes 3 ∷ rounds_at (4 ∷ 5 ∷ [])) idle (backend, [])
        ≡ ok (w', (s', log)))
    × (w'.queue.queue ≡ [])
    × (w'.queue.pending ≡ [])
    × ((j : Text) (base : Fields) → replay j log base ≡ owed j waiting base)
unfolding Dicts.get text_discrete flush_all flush_tasks
run-flush_all_example =
    run-flush_all own_handlers
      (handle_write number sample_codec code no_faults false (λ s. s) (λ v. [])) 3 (4 ∷ 5 ∷ [])
      waiting backend refl waiting-IsValid refl (direct-ne-sentinel, tt) refl

abbrev cache_a : Cache
cache_a = record {
  max_size = 1;
  ttl = 60;
  clean_type = lru;
  store = (codes "b", sample) ∷ [];
  access_log = (codes "b", tt) ∷ [];
  freq = (codes "b", 1) ∷ [];
  timestamps = (codes "b", 3) ∷ [];
}

cache_a-IsValid : IsValid cache_a
unfolding Dicts.get
cache_a-IsValid = record {
  logged = λ k. ground arith;
  counted = λ k. ground arith;
  stamped = λ k. ground arith;
  distinct = (refl, tt);
}

abbrev service : Service ℕ
service = record {
  name = codes "s";
  workers = record {
    parallel_enabled = false;
    worker_count = 0;
    task_timeout = 30;
    reboot_interval_hours = 0;
  };
  cache = cache_a;
  queue = one_task;
  backend = record backend { disk = disk_b };
}

delete-engine_example :
    (s' : Service ℕ) × (delete number sample_codec code (λ s. s) (λ v. []) 5 6 (codes "b") service
      ≡ ok s')
    × (read_storage sample_codec (codes "b") s'.backend.disk ≡ ok none)
    × (s'.backend.engine ≡ service.backend.engine)
delete-engine_example =
    delete-engine number sample_codec code (λ s. s) (λ v. []) 5 6 (codes "b") service
      cache_a-IsValid

-- Of length 1 there is only "b", which is taken; of length 2 there is "bb".
abbrev attempts : ℕ → List Text
attempts zero = []
attempts (suc zero) = codes "b" ∷ []
attempts (suc (suc n)) = codes "b" ∷ codes "bb" ∷ []

bb-free : first_free disk_b.index (attempts (1 + 1)) ≡ some (codes "bb")
unfolding first_free Index.get Dicts.get text_discrete
bb-free = refl

generate_id_total_example :
    (id : Text) × (len' : ℕ) × (generate_id attempts true disk_b.index 5 1 ≡ ok (id, len'))
    × (Index.get id disk_b.index ≡ none)
generate_id_total_example =
    generate_id_total attempts disk_b.index 5 1 1 (codes "bb") bb-free (omega arith)

abbrev bytes_b : Bytes
bytes_b = codes "b {\"a\": 1}"

sample-IsLineCodec :
    IsLineCodec sample_codec (λ s. s) (serialize_record sample_codec (codes "b") sample)
unfolding serialize_record has_char
sample-IsLineCodec = record { body = bytes_b; encoded = refl; one = refl; decoded = refl }

index_lines-append_record_example :
    let line = serialize_record sample_codec (codes "b") sample in
    let after = active_bytes log_b ++ (line ++ (10 ∷ [])) in
    index_lines sample_codec (λ s. s) (show_03d 2) 0 (byte_lines after) []
    ≡ put
        (codes "b")
        (entry_of (Log.append sample_codec line log_b).0)
        (index_lines sample_codec (λ s. s) (show_03d 2) 0 (byte_lines (active_bytes log_b)) [])
index_lines-append_record_example =
    index_lines-append_record sample_codec (λ s. s) (codes "b") sample log_b [] b-IsLineId
      sample-IsJson sample-IsLineCodec log_b-EndsLine
  where
    log_b-EndsLine : EndsLine (active_bytes log_b)
    log_b-EndsLine = unfold Dicts.get segment_name show_03d text_discrete in tt
