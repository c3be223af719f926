-- ===== src/Dispatcher.antt =====
-- The dispatcher of a store's query workers, mkdb/db/query_workers/dispatcher.py: the class
-- `QueryDispatcher`. A wait on an event is split at the wait: `put_task` before it, `take` and `time_out`
-- after it. Clocks, process ids and `uuid4().hex` are arguments; a worker's process or thread is its
-- entry in `stats`, and what it puts into the results queue is an argument of the router.
pub mod Routing
use mk_db.Base.{
  ℕ, zero, suc, ◌+◌, ◌*◌, Text, codes, List, [], ◌∷◌, ◌++◌, Option, none, some, Bool, true, false,
  not, ◌&&◌, Dict, put, remove, contains, text_key, length, drop, ltb, leb, ◌==◌, if◌then◌else◌, ok,
  raise, ◌>>=◌, or_raise, key_error, runtime_error, Key, ℕ_discrete,
}
use mk_db.Base.Dicts
use mk_db.Base.Result.{Result}
use mk_db.Json.{Json, obj, Fields}
use mk_db.Index.{Entry}
use mk_db.Workers.Task.{QueryTask, query_task}
use mk_db.Workers.Loop.{Incoming, sentinel, task, Reply, Message, notice}

-- Workers are numbered from 0.
instance abbrev pub worker_key : Key ℕ
worker_key = record { dec = ℕ_discrete }

pub record Config : Type 0 where
  pub parallel_enabled : Bool
  pub worker_count : ℕ
  pub task_timeout : ℕ
  pub reboot_interval_hours : ℕ

pub record Stats : Type 0 where
  pub completed : ℕ
  pub pid : ℕ
  pub last_active : ℕ
  pub is_process : Bool

pub record Dispatcher : Type 0 where
  pub store_name : Text
  pub config : Config
  -- What the workers take from the work queue, in its order.
  pub work_queue : List Incoming
  pub invalidation_queues : List (List Message)
  -- The number of `_workers`
  pub workers : ℕ
  pub stop_event : Bool
  -- task_id -> whether its event is set
  pub pending : Dict Text Bool
  pub results : Dict Text Reply
  pub worker_stats : Dict ℕ Stats
  pub started : Bool
  pub last_restart_time : ℕ

-- `__init__`
unfoldable pub init : Text → Config → ℕ → Dispatcher
init store_name config now = record {
  store_name = store_name;
  config = config;
  work_queue = [];
  invalidation_queues = [];
  workers = 0;
  stop_event = false;
  pending = [];
  results = [];
  worker_stats = [];
  started = false;
  last_restart_time = now;
}

-- A worker with its private queue and its statistics.
unfoldable pub add_worker : ℕ → ℕ → Bool → Dispatcher → Dispatcher
add_worker i pid is_process d = record d {
  invalidation_queues = d.invalidation_queues ++ [] ∷ [];
  workers = d.workers + 1;
  worker_stats =
      put i (record { completed = 0; pid = pid; last_active = 0; is_process = is_process })
        d.worker_stats;
}

-- `for i in range(count)`, with `i` processes started and `n` to go
unfoldable pub add_processes : (ℕ → ℕ) → ℕ → ℕ → Dispatcher → Dispatcher
unfolding add_worker
add_processes pids i zero d = d
add_processes pids i (suc n) d = add_processes pids (i + 1) n (add_worker i (pids i) true d)

-- `worker_count or (os.cpu_count() or 2)`; `cpus` is 0 for `None`
abbrev pub process_count : ℕ → ℕ → ℕ
process_count worker_count cpus =
    if worker_count == 0 then (if cpus == 0 then 2 else cpus) else worker_count

unfoldable pub start_process_workers : (ℕ → ℕ) → ℕ → Dispatcher → Dispatcher
unfolding add_processes
start_process_workers pids cpus d =
    add_processes pids 0 (process_count d.config.worker_count cpus) d

-- The operating system: the ids of the processes that are started, of this process, the number of
-- processors, and how many entries of the work queue the workers take, from the first sentinel of a `stop`
-- to the end of its joins: tasks before the sentinels, and sentinels, as far as they are not busy.
pub record System : Type 0 where
  pub pids : ℕ → ℕ
  pub pid : ℕ
  pub cpus : ℕ
  pub taken : ℕ

unfoldable pub start_workers : System → Dispatcher → Dispatcher
unfolding start_process_workers add_worker
start_workers o d =
    if d.config.parallel_enabled
    then start_process_workers o.pids o.cpus d
    else add_worker 0 o.pid false d

-- `start`
unfoldable pub start : System → ℕ → Dispatcher → Dispatcher
unfolding start_workers
start o now d =
    if d.started
    then d
    else start_workers o (record d { started = true; last_restart_time = now; stop_event = false })

abbrev sentinels : ℕ → List Incoming
sentinels zero = []
sentinels (suc n) = sentinel ∷ sentinels n

-- `stop`. A worker ends on the stop event or on a sentinel, whichever it meets first; what none of them
-- took stays on the work queue.
unfoldable pub stop : ℕ → Dispatcher → Dispatcher
stop taken d =
    if d.started
    then record d {
      stop_event = true;
      work_queue = drop taken (d.work_queue ++ sentinels d.workers);
      invalidation_queues = [];
      workers = 0;
      worker_stats = [];
      started = false;
    }
    else d

-- `restart`
unfoldable pub restart : System → ℕ → Dispatcher → Dispatcher
unfolding stop start
restart o now d = start o now (stop o.taken d)

-- A turn of `_reboot_watcher_loop`, behind its `sleep`: whether the loop goes on.
unfoldable watch : System → ℕ → Dispatcher → Bool × Dispatcher
unfolding restart
watch o now d =
    if ltb 0 d.config.reboot_interval_hours
      && leb (d.last_restart_time + d.config.reboot_interval_hours * 3600) now
    then (false, restart o now d)
    else (true, d)

-- `submit` to the wait: the workers are started, and the task goes to the work queue with an event
-- that is not set.
unfoldable pub add_task : Text → Dispatcher → Result QueryTask → Result (Unit {0}) × Dispatcher
add_task task_id d (raise e) = (raise e, d)
add_task task_id d (ok t) = (
  ok tt,
  record d { pending = put task_id false d.pending; work_queue = d.work_queue ++ task t ∷ [] },
)

unfoldable pub put_task :
    System → ℕ → Text → Fields → Text → Dispatcher → Result (Unit {0}) × Dispatcher
unfolding start query_task add_task
put_task o now operation params task_id d =
    let d' = start o now d in
    add_task task_id d' (query_task operation d'.store_name (obj params) task_id)

-- The data of a result; one of status "error" is a `RuntimeError`.
abbrev pub data_of : Result Json → Result Json
data_of (ok v) = ok v
data_of (raise e) = raise runtime_error

-- `self._results.pop(task_id)`, with the result
unfoldable pub take_result : Text → Option Reply → Dispatcher → Result Json × Dispatcher
take_result task_id none d = (raise key_error, d)
take_result task_id (some r) d =
    (data_of r.outcome, record d { results = remove task_id d.results })

-- `submit` behind a wait that ended in time.
unfoldable pub take : Text → Dispatcher → Result Json × Dispatcher
unfolding take_result
take task_id d = take_result task_id (Dicts.get task_id d.results) d

-- `submit` behind a wait that did not; it then raises a `TimeoutError`.
unfoldable pub time_out : Text → Dispatcher → Dispatcher
time_out task_id d = record d {
  pending = remove task_id d.pending;
  results = remove task_id d.results;
}

abbrev pub bump : ℕ → Option Stats → Dict ℕ Stats → ℕ → Dict ℕ Stats
bump now none stats i = stats
bump now (some s) stats i =
    put i (record s { completed = s.completed + 1; last_active = now }) stats

-- `event.set()`, if there is an event for the task
abbrev pub set_event : Text → Dict Text Bool → Dict Text Bool
set_event task_id pending = if contains task_id pending then put task_id true pending else pending

-- A turn of `_result_router_loop` that got a result; one without a task's id is passed over.
unfoldable pub route_to : Text → ℕ → Reply → Dispatcher → Dispatcher
route_to [] now r d = d
route_to (x ∷ id) now r d = record d {
  worker_stats = bump now (Dicts.get r.worker_id d.worker_stats) d.worker_stats r.worker_id;
  results = put (x ∷ id) r d.results;
  pending = set_event (x ∷ id) d.pending;
}

unfoldable pub route_result : ℕ → Reply → Dispatcher → Dispatcher
unfolding route_to
route_result now r d = route_to r.task_id now r d

-- `invalidate`: the message into each worker's queue
unfoldable pub broadcast : Message → List (List Message) → List (List Message)
broadcast m [] = []
broadcast m (q ∷ qs) = (q ++ m ∷ []) ∷ broadcast m qs

unfoldable pub invalidate : Text → Option Entry → Dispatcher → Dispatcher
unfolding broadcast
invalidate record_id meta d = record d {
  invalidation_queues = broadcast (notice (some record_id) meta) d.invalidation_queues;
}

-- `is_running`
abbrev is_running : Dispatcher → Bool
is_running d = d.started && not d.stop_event

pub record Status : Type 0 where
  pub store_name : Text
  pub parallel : Bool
  pub worker_count : ℕ
  pub queue_depth : ℕ
  pub pending_tasks : ℕ
  pub running : Bool
  pub workers : List (ℕ × Stats × Bool)

-- The loop over the statistics, with the number of the first: the handle of a worker is found by its
-- place, and `is_alive` asks it.
unfoldable worker_status : (ℕ → Bool) → ℕ → ℕ → Dict ℕ Stats → List (ℕ × Stats × Bool)
worker_status is_alive workers i [] = []
worker_status is_alive workers i ((w, s) ∷ rest) =
    (w, s, (if ltb i workers then is_alive i else false))
    ∷ worker_status is_alive workers (suc i) rest

-- `status`; `queue_depth` where `qsize` is supported
unfoldable pub status : (ℕ → Bool) → Dispatcher → Status
unfolding worker_status
status is_alive d = record {
  store_name = d.store_name;
  parallel = d.config.parallel_enabled;
  worker_count = d.workers;
  queue_depth = length d.work_queue;
  pending_tasks = length d.pending;
  running = is_running d;
  workers = worker_status is_alive d.workers 0 d.worker_stats;
}
