-- ===== src/WriteQueue.antt =====
-- The debounced queue of writes of one store, mkdb/db/cache/write_queue.py: the class `WriteQueue`. Each
-- operation runs under the lock or on the worker's thread alone, and is one step here; a round of the
-- worker is two, between which the lock is free. Times are natural numbers.
pub mod Owed
pub mod Drain
pub mod Traced
pub mod Delivery
pub mod Flushing
pub mod Stop
pub mod Invariant
use mk_db.Base.{
  ℕ, ◌+◌, Text, List, [], ◌∷◌, ◌++◌, Option, none, some, Bool, true, false, Dict, put, remove,
  contains, text_key, ltb, leb, if◌then◌else◌, ◌&&◌, ◌||◌, not, length, drop, ok, raise, ◌>>=◌,
  or_raise, key_error, runtime_error, codes,
}
use mk_db.Base.Dicts
use mk_db.Base.Result.{Result}
use mk_db.Json.{Fields}
use mk_db.Json.Entries.{update}

-- A task on the queue: a flushed write, a task of another operation, or the sentinel.
pub data Task : Type 0 where
  flushed : (record_id : Text) (delta : Fields) (ts : ℕ) → Task
  direct : (op : Text) (delta : Fields) → Task
  sentinel : Task

pub record Queue : Type 0 where
  pub debounce_window : ℕ
  pub max_pending : ℕ
  pub queue : List Task
  pub pending : Dict Text Fields
  pub timers : Dict Text ℕ
  pub dead_letter : List Task
  pub stopped : Bool

-- What `enqueue` is called with: a "write", perhaps without an id, or another operation.
pub data Request : Type 0 where
  write_of : Option Text → Fields → Request
  request_of : Text → Fields → Request

-- The pending delta, with the new one over it.
unfoldable pub coalesce : Option Fields → Fields → Fields
coalesce none d = d
coalesce (some p) d = update p d

unfoldable pub enqueue : ℕ → Request → Queue → Result Queue
unfolding coalesce
enqueue now (request_of op d) q = ok (record q { queue = q.queue ++ (direct op d ∷ []) })
enqueue now (write_of none d) q = ok q
enqueue now (write_of (some id) d) q =
    if not (contains id q.pending) && leb q.max_pending (length q.pending)
    then raise runtime_error
    else ok (record q {
      pending = put id (coalesce (Dicts.get id q.pending) d) q.pending;
      timers = put id now q.timers;
    })

-- One task for each pending delta.
unfoldable pub flush_tasks : ℕ → Dict Text Fields → List Task
flush_tasks now [] = []
flush_tasks now ((id, d) ∷ p) = flushed id d now ∷ flush_tasks now p

unfoldable pub flush_all : ℕ → Queue → Queue
unfolding flush_tasks
flush_all now q = record q {
  queue = q.queue ++ flush_tasks now q.pending;
  pending = [];
  timers = [];
}

-- The writes to flush, and the sentinel behind them; the event that ends the worker's loop is set.
unfoldable pub stop : ℕ → Queue → Queue
unfolding flush_all
stop now q =
    let q' = flush_all now q in record q' { queue = q'.queue ++ (sentinel ∷ []); stopped = true }

-- The ids whose window has passed.
unfoldable pub due : ℕ → ℕ → Dict Text ℕ → List Text
due now window [] = []
due now window ((id, ts) ∷ t) =
    let rest = due now window t in if leb (ts + window) now then id ∷ rest else rest

-- `pop` of the delta and of the timer of one id, and its task at the end of the queue.
unfoldable pub drain_one : Text → Queue → Result Queue
drain_one id q = do
  d ← or_raise key_error (Dicts.get id q.pending)
  ts ← or_raise key_error (Dicts.get id q.timers)
  ok (record q {
    queue = q.queue ++ (flushed id d ts ∷ []);
    pending = remove id q.pending;
    timers = remove id q.timers;
  })

unfoldable pub drain_each : List Text → Queue → Result Queue
drain_each [] q = ok q
drain_each (id ∷ ids) q = do q' ← drain_one id q; drain_each ids q'

-- The first half of a round of the worker.
unfoldable pub drain : ℕ → Queue → Result Queue
unfolding due drain_each
drain now q = drain_each (due now q.debounce_window q.timers) q

-- The worker's thread: whether it waits in `get` for a task, and whether its loop has ended.
pub record Loop : Type 0 where
  pub queue : Queue
  pub waiting : Bool
  pub ended : Bool

-- What happens next: the worker tests the stop event and drains what is due, or takes a task; or another
-- thread calls `enqueue`, `flush_all` or `stop`, also while the worker waits.
pub data Turn : Type 0 where
  drains : (now : ℕ) → Turn
  takes : Turn
  enqueues : (now : ℕ) (r : Request) → Turn
  flushes stops : (now : ℕ) → Turn

-- The queue after `enqueue`, which a refused call leaves as it was.
abbrev pub or_same : Queue → Result Queue → Queue
or_same q (ok q') = q'
or_same q (raise x) = q

-- The first half of a round of `_worker_loop`, if the worker is there.
unfoldable pub begin : ℕ → Loop → Result Loop
unfolding drain
begin now w =
    if w.waiting || w.ended
    then ok w
    else if w.queue.stopped
    then ok (record w { ended = true })
    else do q ← drain now w.queue; ok (record w { queue = q; waiting = true })

-- The last 1000 tasks that failed.
unfoldable pub bury : Task → Queue → Queue
bury t q =
    let dead = q.dead_letter ++ (t ∷ []) in
    record q { dead_letter = if ltb 1000 (length dead) then drop 1 dead else dead }

-- The handlers are parameters: each turns a task and the store's state into the next state, with
-- `true` where it raised.
abbrev pub Handler : Type 0 → Type 0
Handler S = Task → S → Bool × S

module _ {S : Type 0} where
  -- The handler of a task, from the dictionary of handlers.
  unfoldable pub handler_of : Dict Text (Handler S) → Task → Option (Handler S)
  handler_of handlers (flushed id d ts) = Dicts.get (codes "write") handlers
  handler_of handlers (direct op d) = Dicts.get op handlers
  handler_of handlers sentinel = none

  unfoldable pub dispatch : Option (Handler S) → Task → Queue → S → Queue × S
  unfolding bury
  dispatch none t q s = (q, s)
  dispatch (some handle) t q s =
      let (failed, s') = handle t s in (if failed then bury t q else q, s')

  abbrev pub and_on : Queue × S → Bool × Queue × S
  and_on (q, s) = (true, q, s)

  -- The second half: one task, if there is one; `false` ends the loop.
  unfoldable pub pull : Dict Text (Handler S) → List Task → Queue → S → Bool × Queue × S
  unfolding dispatch handler_of
  pull handlers [] q s = (true, q, s)
  pull handlers (sentinel ∷ ts) q s = (false, record q { queue = ts }, s)
  pull handlers (flushed id d at ∷ ts) q s = and_on (
      dispatch (handler_of handlers (flushed id d at)) (flushed id d at) (record q { queue = ts })
        s)
  pull handlers (direct op d ∷ ts) q s =
      and_on
        (dispatch (handler_of handlers (direct op d)) (direct op d) (record q { queue = ts }) s)

  abbrev pub taken : Bool × Queue × S → Loop × S
  taken (on, q, s) = (record { queue = q; waiting = false; ended = not on }, s)

  -- The worker takes a task, if it waits for one; with none in 0.1 seconds it begins anew.
  unfoldable pub take_task : Dict Text (Handler S) → Loop → S → Loop × S
  unfolding pull
  take_task handlers w s =
      if w.waiting then taken (pull handlers w.queue.queue w.queue s) else (w, s)

  unfoldable pub turn : Dict Text (Handler S) → Turn → Loop → S → Result (Loop × S)
  unfolding begin take_task enqueue flush_all stop
  turn handlers (drains now) w s = do w' ← begin now w; ok (w', s)
  turn handlers takes w s = ok (take_task handlers w s)
  turn handlers (enqueues now r) w s =
      ok (record w { queue = or_same w.queue (enqueue now r w.queue) }, s)
  turn handlers (flushes now) w s = ok (record w { queue = flush_all now w.queue }, s)
  turn handlers (stops now) w s = ok (record w { queue = stop now w.queue }, s)

  -- The worker and its callers, in the order in which they get the lock or the next task.
  unfoldable pub run : Dict Text (Handler S) → List Turn → Loop → S → Result (Loop × S)
  unfolding turn
  run handlers [] w s = ok (w, s)
  run handlers (t ∷ ts) w s = do (w', s') ← turn handlers t w s; run handlers ts w' s'
