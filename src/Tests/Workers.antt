-- ===== src/Tests/Workers.antt =====
-- Tests of the query workers and of their dispatcher.
use mk_db.Base.{
  ◌≡◌, refl, ◌+◌, List, [], ◌∷◌, none, some, true, false, codes, text_key, text_discrete, ok, raise,
}
use mk_db.Base.Dicts
use mk_db.Base.Result.{value_error}
use mk_db.Json.{end, int}
use mk_db.Index
use mk_db.Workers.Task.{QueryTask, query_task}
use mk_db.Workers.Resolve.{Worker, QueryOps, read_id}
use mk_db.Workers.Loop.{sentinel, task, Reply, Turn, worker_loop, Incoming}
use mk_db.Workers.Replies.{taken, task_ids, AreBy, worker_loop-task_ids}
use mk_db.Workers.Coherent.{messages}
use mk_db.Workers.Coherent.Runs.{Pair, told}
use mk_db.Dispatcher.{Dispatcher, Config, System, put_task, take, route_result, status}
use mk_db.Dispatcher
use mk_db.Dispatcher.Routing.{Event, happen_all, invalidated, take-put_task, pending_tasks-take}
use mk_db.Tests.Samples.{sample_codec, disk_b, log_b}

-- A worker that has opened the index of the store with the record "b".
abbrev worker_b : Worker
worker_b = record {
  cache = record { max = 2; ttl = 60; entries = []; order = []; ts = [] };
  managers = some (disk_b.index, log_b);
  proxy = none;
  dir = record { service = codes "s"; index_file = none; files = log_b.files };
}

abbrev pair_b : Pair
pair_b = record { disk = disk_b; waiting = []; worker = worker_b }

abbrev asked_b : Pair
asked_b = record pair_b { worker = (read_id sample_codec (λ s. s) 1 2 (codes "b") worker_b).1 }

-- The worker has read "b", and then the store has deleted it.
abbrev deleted_b : Pair
deleted_b =
    told ([], b'b') none (record disk_b { index = Index.delete (codes "b") disk_b.index }) asked_b

abbrev no_queries : QueryOps
no_queries = record { query = λ params w. (raise value_error, w) }

abbrev count_task : QueryTask
count_task = record {
  operation = codes "count";
  store_name = codes "s";
  params = end;
  task_id = codes "t1";
}

abbrev turn_of : Incoming → Turn
turn_of i = record { stop = false; messages = []; incoming = i; clock = λ n. (n, n) }

abbrev two_turns : List Turn
two_turns = turn_of (task count_task) ∷ turn_of sentinel ∷ turn_of (task count_task) ∷ []

worker_loop-task_ids_example :
    (task_ids (worker_loop sample_codec (λ s. s) no_queries 4 two_turns worker_b).0
      ≡ taken two_turns)
    × AreBy 4 (worker_loop sample_codec (λ s. s) no_queries 4 two_turns worker_b).0
worker_loop-task_ids_example =
    worker_loop-task_ids sample_codec (λ s. s) no_queries 4 two_turns worker_b

abbrev system : System
system = record { pids = λ i. 100 + i; pid = 99; cpus = 4; taken = 1 }

-- A dispatcher of one thread that is running.
abbrev running : Dispatcher
running = record {
  store_name = codes "s";
  config = record {
    parallel_enabled = false;
    worker_count = 0;
    task_timeout = 30;
    reboot_interval_hours = 0;
  };
  work_queue = [];
  invalidation_queues = [] ∷ [];
  workers = 1;
  stop_event = false;
  pending = [];
  results = [];
  worker_stats = [];
  started = true;
  last_restart_time = 0;
}

abbrev submitted : Dispatcher
submitted = record running { pending = (codes "t1", false) ∷ []; work_queue = task count_task ∷ [] }

accepted : put_task system 7 (codes "count") end (codes "t1") running ≡ (ok tt, submitted)
unfolding put_task query_task Dispatcher.start Dispatcher.add_task Dicts.get Dicts.put text_discrete
accepted = refl

abbrev answer : Reply
answer = record { task_id = codes "t1"; worker_id = 0; outcome = ok (int false 3) }

abbrev meanwhile : List Event
meanwhile = invalidated (codes "b") none ∷ []

take-put_task_example :
    let d = happen_all meanwhile (route_result 8 answer (happen_all meanwhile submitted)) in
    (Dicts.get (codes "t1") d.pending ≡ some true) × ((take (codes "t1") d).0 ≡ ok (int false 3))
take-put_task_example =
    take-put_task system 7 8 (codes "count") end b't' (codes "1") running submitted answer meanwhile
      meanwhile accepted (tt, tt) refl (tt, tt)

pending_tasks-take_example :
    (status (λ i. true) (take (codes "t1") (route_result 8 answer submitted)).1).pending_tasks
    ≡ (status (λ i. true) running).pending_tasks + 1
pending_tasks-take_example =
    pending_tasks-take system 7 8 (codes "count") end b't' (codes "1") (λ i. true) running submitted
      answer (unfold Dicts.get in refl) accepted refl
