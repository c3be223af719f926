-- ===== src/Workers/Loop.antt =====
-- The loop of a query worker, mkdb/db/query_workers/worker.py: `_worker_loop`. What the queues and the
-- stop event give in one turn is an argument.
use mk_db.Base.{
  ℕ, Text, text_key, List, [], ◌∷◌, Option, none, some, Bool, true, false, Dict, put, remove,
  if◌then◌else◌,
}
use mk_db.Base.Result.{Result}
use mk_db.Json.{Json}
use mk_db.Codec.{Codec, Bytes}
use mk_db.Log.{Log}
use mk_db.Index.{Index, Entry}
use mk_db.Workers.LocalCache
use mk_db.Workers.Task.{QueryTask}
use mk_db.Workers.Resolve.{Worker, Answered, QueryOps, resolve}

-- A message of the invalidation queue: `{"id": rid, "meta": meta}`, or an id alone.
pub data Message : Type 0 where
  notice : Option Text → Option Entry → Message
  plain : Text → Message

-- `_map[rid] = meta` or `_map.pop(rid, None)`
unfoldable pub note : Text → Option Entry → Dict Text Entry → Dict Text Entry
note rid (some meta) m = put rid meta m
note rid none m = remove rid m

unfoldable pub note_index : Text → Option Entry → Index → Index
unfolding note
note_index rid meta idx = record idx { map = note rid meta idx.map }

unfoldable pub note_managers : Text → Option Entry → Option (Index × Log) → Option (Index × Log)
unfolding note_index
note_managers rid meta none = none
note_managers rid meta (some (idx, lmgr)) = some (note_index rid meta idx, lmgr)

unfoldable note_proxy : Text → Option Entry → Option Index → Option Index
unfolding note_index
note_proxy rid meta none = none
note_proxy rid meta (some idx) = some (note_index rid meta idx)

-- One message for an id that is not empty. The indexes of the query engine are left as they are.
unfoldable pub invalidate : Text → Option Entry → Worker → Worker
unfolding note_managers note_proxy LocalCache.evict_one
invalidate [] meta w = w
invalidate (x ∷ rid) meta w = record w {
  cache = LocalCache.evict_one (x ∷ rid) w.cache;
  managers = note_managers (x ∷ rid) meta w.managers;
  proxy = note_proxy (x ∷ rid) meta w.proxy;
}

unfoldable pub handle_message : Message → Worker → Worker
unfolding invalidate
handle_message (notice none meta) w = w
handle_message (notice (some rid) meta) w = invalidate rid meta w
handle_message (plain rid) w = invalidate rid none w

-- `while True: msg = invalidation_queue.get_nowait()`, until the queue is empty
unfoldable pub drain : List Message → Worker → Worker
unfolding handle_message
drain [] w = w
drain (m ∷ ms) w = drain ms (handle_message m w)

-- What `work_queue.get(timeout=0.5)` gives.
pub data Incoming : Type 0 where
  timed_out sentinel : Incoming
  task : QueryTask → Incoming

pub record Reply : Type 0 where
  pub task_id : Text
  pub worker_id : ℕ
  -- "ok" with the data, or "error"
  pub outcome : Result Json

pub record Turn : Type 0 where
  -- `stop_event.is_set()`
  pub stop : Bool
  pub messages : List Message
  pub incoming : Incoming
  pub clock : ℕ → ℕ × ℕ

abbrev reply_to : ℕ → Text → Answered Json → Reply × Worker
reply_to worker_id task_id (outcome, w) =
    (record { task_id = task_id; worker_id = worker_id; outcome = outcome }, w)

abbrev with_reply : Option Reply → List Reply → List Reply
with_reply none rs = rs
with_reply (some r) rs = r ∷ rs

-- A turn that is not the last is followed by the rest of the loop.
abbrev pub after_turn : Bool × Option Reply × Worker → List Reply × Worker → List Reply × Worker
after_turn (true, reply, w) (rest, w') = (with_reply reply rest, w')
after_turn (false, reply, w) rest = (with_reply reply [], w)

module _ (c : Codec) (lossy : Bytes → Text) (q : QueryOps) where
  -- Steps 2 and 3 of a turn: whether the loop goes on, and the reply.
  unfoldable pub handle_incoming :
      ℕ → (ℕ → ℕ × ℕ) → Incoming → Worker → Bool × Option Reply × Worker
  unfolding resolve
  handle_incoming worker_id clock timed_out w = (true, none, w)
  handle_incoming worker_id clock sentinel w = (false, none, w)
  handle_incoming worker_id clock (task t) w =
      let (reply, w') = reply_to worker_id t.task_id (resolve c lossy q clock t w) in
      (true, some reply, w')

  unfoldable pub turn : ℕ → Turn → Worker → Bool × Option Reply × Worker
  unfolding drain handle_incoming
  turn worker_id t w = handle_incoming worker_id t.clock t.incoming (drain t.messages w)

  -- The loop over the turns: what goes to the results queue, and the worker at the end.
  unfoldable pub worker_loop : ℕ → List Turn → Worker → List Reply × Worker
  unfolding turn
  worker_loop worker_id [] w = ([], w)
  worker_loop worker_id (t ∷ ts) w =
      let r = turn worker_id t w in
      let rest = worker_loop worker_id ts r.2 in if t.stop then ([], w) else after_turn r rest
