-- ===== src/Dispatcher/Routing.antt =====
-- Each task gets the result that a worker gave for it, mkdb/db/query_workers/dispatcher.py: `submit` and
-- the router, with anything else that happens meanwhile.
use mk_db.Base.{
  ℕ, zero, suc, ◌+◌, ◌≡◌, ◌≢◌, refl, sym, ◌∙◌, ap, Text, text_key, List, [], ◌∷◌, Option, none,
  some, Bool, true, false, Dict, put, remove, length, ok, raise, raise-ne-ok, arith, get-put,
  get-remove, if◌then◌else◌, length-put_present, put-absent, length-append,
}
use mk_db.Base.Dicts
use mk_db.Base.Result.{Result}
use mk_db.Json.{obj, Fields}
use mk_db.Index.{Entry}
use mk_db.Workers.Task.{QueryTask, query_task}
use mk_db.Workers.Loop.{Reply}
use mk_db.Dispatcher.{
  Dispatcher, System, start, start_workers, start_process_workers, add_processes, add_worker,
  process_count, restart, stop, put_task, add_task, take, take_result, time_out, route_to,
  route_result, set_event, data_of, invalidate, status,
}

-- What can happen to a dispatcher.
pub data Event : Type 0 where
  submitted : System → ℕ → Text → Fields → Text → Event
  routed : ℕ → Reply → Event
  taken : Text → Event
  timed_out : Text → Event
  invalidated : Text → Option Entry → Event
  restarted : System → ℕ → Event

unfoldable pub happen : Event → Dispatcher → Dispatcher
unfolding put_task route_result take time_out invalidate restart
happen (submitted o now operation params id) d = (put_task o now operation params id d).1
happen (routed now r) d = route_result now r d
happen (taken id) d = (take id d).1
happen (timed_out id) d = time_out id d
happen (invalidated id meta) d = invalidate id meta d
happen (restarted o now) d = restart o now d

unfoldable pub happen_all : List Event → Dispatcher → Dispatcher
unfolding happen
happen_all [] d = d
happen_all (e ∷ es) d = happen_all es (happen e d)

-- The event is not about the task.
abbrev IsOther : Text → Event → Type 0
IsOther k (submitted o now operation params id) = id ≢ k
IsOther k (routed now r) = r.task_id ≢ k
IsOther k (taken id) = id ≢ k
IsOther k (timed_out id) = id ≢ k
IsOther k (invalidated id meta) = Unit
IsOther k (restarted o now) = Unit

abbrev AreOther : Text → List Event → Type 0
AreOther k [] = Unit
AreOther k (e ∷ es) = IsOther k e × AreOther k es

-- What the dispatcher knows of a task.
record IsSame (k : Text) (d' d : Dispatcher) : Type 0 where
  results : Dicts.get k d'.results ≡ Dicts.get k d.results
  pending : Dicts.get k d'.pending ≡ Dicts.get k d.pending

-- Starting and stopping the workers leaves the tasks alone.
abbrev HasTasksOf : Dispatcher → Dispatcher → Type 0
HasTasksOf d' d = (d'.results ≡ d.results) × (d'.pending ≡ d.pending)

add_processes-HasTasksOf :
    (pids : ℕ → ℕ) (i n : ℕ) (d : Dispatcher) → HasTasksOf (add_processes pids i n d) d
unfolding add_processes add_worker
add_processes-HasTasksOf pids i zero d = (refl, refl)
add_processes-HasTasksOf pids i (suc n) d =
    add_processes-HasTasksOf pids (i + 1) n (add_worker i (pids i) true d)

start_workers-HasTasksOf : (o : System) (d : Dispatcher) → HasTasksOf (start_workers o d) d
unfolding start_workers start_process_workers add_worker
start_workers-HasTasksOf o d =
    elim d.config.parallel_enabled
      as (λ b.
        HasTasksOf (if b then start_process_workers o.pids o.cpus d else add_worker 0 o.pid false d)
          d) [
            | true ↦
                add_processes-HasTasksOf o.pids 0 (process_count d.config.worker_count o.cpus) d
            | false ↦ (refl, refl)
          ]

start-HasTasksOf : (o : System) (now : ℕ) (d : Dispatcher) → HasTasksOf (start o now d) d
unfolding start
start-HasTasksOf o now d =
    elim d.started
      as (λ b.
        HasTasksOf
          (if b
            then d
            else start_workers o
                (record d { started = true; last_restart_time = now; stop_event = false }))
          d) [
            | true ↦ (refl, refl)
            | false ↦
                start_workers-HasTasksOf o
                  (record d { started = true; last_restart_time = now; stop_event = false })
          ]

stop-HasTasksOf : (n : ℕ) (d : Dispatcher) → HasTasksOf (stop n d) d
unfolding stop
stop-HasTasksOf n d = ground arith

restart-HasTasksOf : (o : System) (now : ℕ) (d : Dispatcher) → HasTasksOf (restart o now d) d
unfolding restart
restart-HasTasksOf o now d =
    let (r, p) = start-HasTasksOf o now (stop o.taken d) in
    let (r', p') = stop-HasTasksOf o.taken d in (r ∙ r', p ∙ p')

HasTasksOf-IsSame : (k : Text) (d' d : Dispatcher) → HasTasksOf d' d → IsSame k d' d
HasTasksOf-IsSame k d' d (r, p) = record {
  results = ap (λ m. Dicts.get k m) r;
  pending = ap (λ m. Dicts.get k m) p;
}

add_task-IsSame :
    (k id : Text) (d' d : Dispatcher) (t : Result QueryTask)
    → id ≢ k
    → IsSame k d' d
    → IsSame k (add_task id d' t).1 d
unfolding add_task
add_task-IsSame k id d' d (raise e) other h = h
add_task-IsSame k id d' d (ok t) other h = record {
  results = h.results;
  pending = ground (arith, get-put id k false d'.pending, h.pending);
}

get-set_event :
    (id k : Text) (m : Dict Text Bool) → id ≢ k → Dicts.get k (set_event id m) ≡ Dicts.get k m
get-set_event id k m h = ground (arith, get-put id k true m)

route_to-IsSame :
    (k id : Text) (now : ℕ) (r : Reply) (d : Dispatcher) → id ≢ k → IsSame k (route_to id now r d) d
unfolding route_to
route_to-IsSame k [] now r d h = record { results = refl; pending = refl }
route_to-IsSame k (x ∷ id) now r d h = record {
  results = ground (arith, get-put (x ∷ id) k r d.results);
  pending = get-set_event (x ∷ id) k d.pending h;
}

take_result-IsSame :
    (k id : Text) (d : Dispatcher) (o : Option Reply) → id ≢ k → IsSame k (take_result id o d).1 d
unfolding take_result
take_result-IsSame k id d none h = record { results = refl; pending = refl }
take_result-IsSame k id d (some r) h = record {
  results = ground (arith, get-remove id k d.results);
  pending = refl;
}

happen-IsSame : (k : Text) (e : Event) (d : Dispatcher) → IsOther k e → IsSame k (happen e d) d
unfolding happen put_task route_result take time_out invalidate
happen-IsSame k (submitted o now operation params id) d h =
    add_task-IsSame k id (start o now d) d
      (query_task operation (start o now d).store_name (obj params) id) h
      (HasTasksOf-IsSame k (start o now d) d (start-HasTasksOf o now d))
happen-IsSame k (routed now r) d h = route_to-IsSame k r.task_id now r d h
happen-IsSame k (taken id) d h = take_result-IsSame k id d (Dicts.get id d.results) h
happen-IsSame k (timed_out id) d h = record {
  results = ground (arith, get-remove id k d.results);
  pending = ground (arith, get-remove id k d.pending);
}
happen-IsSame k (invalidated id meta) d h = record { results = refl; pending = refl }
happen-IsSame k (restarted o now) d h =
    HasTasksOf-IsSame k (restart o now d) d (restart-HasTasksOf o now d)

happen_all-IsSame :
    (k : Text) (es : List Event) (d : Dispatcher) → AreOther k es → IsSame k (happen_all es d) d
unfolding happen_all
happen_all-IsSame k [] d h = record { results = refl; pending = refl }
happen_all-IsSame k (e ∷ es) d (h, hs) =
    let first = happen-IsSame k e d h in
    let rest = happen_all-IsSame k es (happen e d) hs in
    record { results = rest.results ∙ first.results; pending = rest.pending ∙ first.pending }

add_task-pending :
    (k : Text) (d d' : Dispatcher) (t : Result QueryTask)
    → add_task k d t ≡ (ok tt, d')
    → Dicts.get k d'.pending ≡ some false
unfolding add_task
add_task-pending k d d' (raise e) h = absurd (raise-ne-ok e tt (ap (λ p. p.0) h))
add_task-pending k d d' (ok t) h =
    ap (λ p. Dicts.get k p.1.pending) (sym h) ∙ ground (arith, get-put k k false d.pending)

-- The router's step for a task that waits.
route_to-taken :
    (x : ℕ) (id : Text) (now : ℕ) (r : Reply) (d : Dispatcher)
    → Dicts.get (x ∷ id) d.pending ≡ some false
    → (Dicts.get (x ∷ id) (route_to (x ∷ id) now r d).pending ≡ some true)
      × (Dicts.get (x ∷ id) (route_to (x ∷ id) now r d).results ≡ some r)
unfolding route_to
route_to-taken x id now r d h = (
  ground (arith, get-put (x ∷ id) (x ∷ id) true d.pending),
  ground (arith, get-put (x ∷ id) (x ∷ id) r d.results),
)

take-run :
    (k : Text) (r : Reply) (d : Dispatcher)
    → Dicts.get k d.results ≡ some r
    → take k d ≡ (data_of r.outcome, record d { results = remove k d.results })
unfolding take take_result
take-run k r d h = rw h refl

-- Let a task be submitted, then anything happen that is not about it, then the router get a result with
-- its id, then again anything happen that is not about it: other tasks, their results and time-outs,
-- invalidations, restarts of the workers. Then the event of the task is set, and its waiter takes the
-- data of that result, or its error.
pub take-put_task :
    (o : System) (now then_ : ℕ) (operation : Text) (params : Fields) (x : ℕ) (id : Text)
    (d d' : Dispatcher) (r : Reply) (es fs : List Event)
    → put_task o now operation params (x ∷ id) d ≡ (ok tt, d')
    → AreOther (x ∷ id) es
    → r.task_id ≡ x ∷ id
    → AreOther (x ∷ id) fs
    → let d'' = happen_all fs (route_result then_ r (happen_all es d')) in
      (Dicts.get (x ∷ id) d''.pending ≡ some true) × ((take (x ∷ id) d'').0 ≡ data_of r.outcome)
unfolding put_task route_result
take-put_task o now then_ operation params x id d d' r es fs put_ others same others' =
    let k : Text = x ∷ id in
    let d1 = happen_all es d' in
    let d2 = route_to r.task_id then_ r d1 in
    let waits =
      (happen_all-IsSame k es d' others).pending
      ∙ add_task-pending k (start o now d) d'
          (query_task operation (start o now d).store_name (obj params) k) put_ in
    let (set_, held) = route_to-taken x id then_ r d1 waits in
    let after = happen_all-IsSame k fs d2 others' in
    (
      after.pending ∙ (ap (λ i. Dicts.get k (route_to i then_ r d1).pending) same ∙ set_),
      ap (λ p. p.0)
          (take-run k r (happen_all fs d2)
            (after.results ∙ (ap (λ i. Dicts.get k (route_to i then_ r d1).results) same ∙ held))),
    )

take-pending : (k : Text) (d : Dispatcher) → (take k d).1.pending ≡ d.pending
unfolding take
take-pending k d = by_result k (Dicts.get k d.results) d
  where
    by_result :
        (k : Text) (o : Option Reply) (d : Dispatcher) → (take_result k o d).1.pending ≡ d.pending
    by_result k none d = unfold take_result in refl
    by_result k (some r) d = unfold take_result in refl

length-set_event : (k : Text) (m : Dict Text Bool) → length (set_event k m) ≡ length m
length-set_event k m = ground (arith, length-put_present k true m)

length-route_to :
    (id : Text) (now : ℕ) (r : Reply) (d : Dispatcher)
    → length (route_to id now r d).pending ≡ length d.pending
unfolding route_to
length-route_to [] now r d = refl
length-route_to (x ∷ id) now r d = length-set_event (x ∷ id) d.pending

length-put_new :
    (k : Text) (b : Bool) (m : Dict Text Bool)
    → Dicts.get k m ≡ none
    → length (put k b m) ≡ length m + 1
length-put_new k b m h = ap length (put-absent k b m h) ∙ length-append m ((k, b) ∷ [])

length-add_task :
    (k : Text) (d d' : Dispatcher) (t : Result QueryTask)
    → Dicts.get k d.pending ≡ none
    → add_task k d t ≡ (ok tt, d')
    → length d'.pending ≡ length d.pending + 1
unfolding add_task
length-add_task k d d' (raise e) fresh h = absurd (raise-ne-ok e tt (ap (λ p. p.0) h))
length-add_task k d d' (ok t) fresh h =
    ap (λ p. length p.1.pending) (sym h) ∙ length-put_new k false d.pending fresh

-- A task that was answered stays in `_pending`: where a new task is submitted, its result arrives and
-- the waiter takes it, the status counts one more pending task than before.
pub pending_tasks-take :
    (o : System) (now then_ : ℕ) (operation : Text) (params : Fields) (x : ℕ) (id : Text)
    (is_alive : ℕ → Bool) (d d' : Dispatcher) (r : Reply)
    → Dicts.get (x ∷ id) d.pending ≡ none
    → put_task o now operation params (x ∷ id) d ≡ (ok tt, d')
    → r.task_id ≡ x ∷ id
    → (status is_alive (take (x ∷ id) (route_result then_ r d')).1).pending_tasks
      ≡ (status is_alive d).pending_tasks + 1
unfolding status put_task route_result
pending_tasks-take o now then_ operation params x id is_alive d d' r fresh put_ same =
    let k : Text = x ∷ id in
    let (started_results, started) = start-HasTasksOf o now d in
    ap length (take-pending k (route_to r.task_id then_ r d'))
    ∙ (length-route_to r.task_id then_ r d'
        ∙ (length-add_task k (start o now d) d'
              (query_task operation (start o now d).store_name (obj params) k)
              (ap (λ m. Dicts.get k m) started ∙ fresh) put_
            ∙ ap (λ m. length m + 1) started))

routed_late :
    (x : ℕ) (id : Text) (now : ℕ) (r : Reply) (d : Dispatcher)
    → let d' = route_to (x ∷ id) now r (time_out (x ∷ id) d) in
      (Dicts.get (x ∷ id) d'.results ≡ some r) × (Dicts.get (x ∷ id) d'.pending ≡ none)
unfolding route_to time_out
routed_late x id now r d = (
  ground (arith, get-put (x ∷ id) (x ∷ id) r (remove (x ∷ id) d.results)),
  ground (
    arith,
    get-remove (x ∷ id) (x ∷ id) d.pending,
    get-put (x ∷ id) (x ∷ id) true (remove (x ∷ id) d.pending),
  ),
)

-- A result that arrives behind the time-out of its task stays in `_results`, for good as far as other
-- events go, and no event waits for it.
results-time_out :
    (x : ℕ) (id : Text) (now : ℕ) (d : Dispatcher) (r : Reply) (es : List Event)
    → r.task_id ≡ x ∷ id
    → AreOther (x ∷ id) es
    → let d' = happen_all es (route_result now r (time_out (x ∷ id) d)) in
      (Dicts.get (x ∷ id) d'.results ≡ some r) × (Dicts.get (x ∷ id) d'.pending ≡ none)
unfolding route_result time_out
results-time_out x id now d r es same others =
    let k : Text = x ∷ id in
    let d1 = time_out k d in
    let after = happen_all-IsSame k es (route_to r.task_id now r d1) others in
    let (held, free) = routed_late x id now r d in
    (
      after.results ∙ (ap (λ i. Dicts.get k (route_to i now r d1).results) same ∙ held),
      after.pending ∙ (ap (λ i. Dicts.get k (route_to i now r d1).pending) same ∙ free),
    )
