-- ===== src/Workers/Replies.antt =====
-- A query worker answers each task that it takes, mkdb/db/query_workers/worker.py: `_worker_loop`.
use mk_db.Base.{ℕ, ◌≡◌, refl, ap, Text, List, [], ◌∷◌, true, false, if◌then◌else◌}
use mk_db.Codec.{Codec, Bytes}
use mk_db.Workers.Resolve.{Worker, QueryOps}
use mk_db.Workers.Loop.{
  Incoming, timed_out, sentinel, task, Reply, Turn, drain, handle_incoming, turn, worker_loop,
  after_turn,
}

-- The task of a turn, and of those behind it.
abbrev and_task : Incoming → List Text → List Text
and_task timed_out rest = rest
and_task sentinel rest = []
and_task (task t) rest = t.task_id ∷ rest

-- The ids of the tasks that come before the stop event or a sentinel, in order.
abbrev pub taken : List Turn → List Text
taken [] = []
taken (t ∷ ts) = if t.stop then [] else and_task t.incoming (taken ts)

abbrev pub task_ids : List Reply → List Text
task_ids [] = []
task_ids (r ∷ rs) = r.task_id ∷ task_ids rs

abbrev pub AreBy : ℕ → List Reply → Type 0
AreBy worker_id [] = Unit {0}
AreBy worker_id (r ∷ rs) = (r.worker_id ≡ worker_id) × AreBy worker_id rs

-- The results and their task ids.
abbrev Answers : ℕ → List Text → List Reply → Type 0
Answers worker_id ids rs = (task_ids rs ≡ ids) × AreBy worker_id rs

module _ (c : Codec) (lossy : Bytes → Text) (q : QueryOps) where
  after_turn-Answers :
      (worker_id : ℕ) (clock : ℕ → ℕ × ℕ) (i : Incoming) (w : Worker) (rest : List Reply × Worker)
      (ids : List Text)
      → Answers worker_id ids rest.0
      → Answers worker_id
          (and_task i ids)
          (after_turn (handle_incoming c lossy q worker_id clock i w) rest).0
  unfolding handle_incoming
  after_turn-Answers worker_id clock timed_out w rest ids h = h
  after_turn-Answers worker_id clock sentinel w rest ids h = (refl, tt)
  after_turn-Answers worker_id clock (task t) w rest ids (same, by) =
      (ap (◌∷◌ t.task_id) same, (refl, by))

-- However many turns the loop takes, and whether its tasks can be resolved or raise, it puts exactly one
-- result into the results queue for each task that it takes before the stop event or a sentinel, in
-- their order, each with the task's id and the worker's own.
pub worker_loop-task_ids :
    (c : Codec) (lossy : Bytes → Text) (q : QueryOps) (worker_id : ℕ) (ts : List Turn) (w : Worker)
    → (task_ids (worker_loop c lossy q worker_id ts w).0 ≡ taken ts)
      × AreBy worker_id (worker_loop c lossy q worker_id ts w).0
unfolding worker_loop turn
worker_loop-task_ids c lossy q worker_id [] w = (refl, tt)
worker_loop-task_ids c lossy q worker_id (t ∷ ts) w =
    let r = turn c lossy q worker_id t w in
    let rest = worker_loop c lossy q worker_id ts r.2 in
    elim t.stop
      as (λ b.
        Answers worker_id (if b then [] else and_task t.incoming (taken ts))
          (if b then ([], w) else after_turn r rest).0) [
            | true ↦ (refl, tt)
            | false ↦
                after_turn-Answers c lossy q worker_id t.clock t.incoming (drain t.messages w) rest
                  (taken ts) (worker_loop-task_ids c lossy q worker_id ts r.2)
          ]
