-- ===== src/WriteQueue/Stop.antt =====
-- What the worker still does once `stop` was called.
use mk_db.Base.{ℕ, ◌+◌, ◌≤◌, ◌≡◌, List, true, text_key, length, if◌then◌else◌}
use mk_db.Base.Dicts
use mk_db.WriteQueue.{Task, Loop}

-- How many tasks the worker may still take: one, if it waits for it.
abbrev pub room : Loop → ℕ
room w = if w.waiting then 1 else 0

-- The stop event is still set, and no more was handed over than there was room for.
record StaysStopped (w : Loop) (log : List Task) (w' : Loop) (log' : List Task) : Type 0 where
  stopped : w'.queue.stopped ≡ true
  bounded : length log' + room w' ≤ length log + room w
