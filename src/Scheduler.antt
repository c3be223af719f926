-- ===== src/Scheduler.antt =====
-- The scheduler of compactions of one store, mkdb/db/maintenance/task_scheduler.py: the class
-- `TaskScheduler`. Its thread calls `run_checks` with "compact" at every interval; a store that is set up
-- has a log manager and a write queue. The threshold of the configuration is `num / den`.
pub mod Due
use mk_db.Base.{
  ℕ, Text, text_discrete, codes, List, [], ◌∷◌, Bool, true, false, test, ok, ◌==◌, ◌&&◌,
  if◌then◌else◌,
}
use mk_db.Json.{int, end, field}
use mk_db.Log.{list_segments}
use mk_db.Disk.{Disk}
use mk_db.Compactor.{needs_compaction}
use mk_db.WriteQueue.{Queue, Request, request_of, enqueue}
use mk_db.Query.Upkeep.{ok_or}

-- The request for one segment.
abbrev compact_request : ℕ → Request
compact_request n = request_of (codes "compact") (field (codes "segment") (int false n) end)

-- The loop over the segments; an exception is logged, and the next segment is checked.
unfoldable pub check_each : ℕ → ℕ → ℕ → Bool → ℕ → Disk → List ℕ → Queue → Queue
unfolding needs_compaction enqueue
check_each num den now is_compact active s [] q = q
check_each num den now is_compact active s (n ∷ ns) q =
    check_each num den now is_compact active s ns (
      if n == active
      then q
      else if is_compact && needs_compaction num den n s
      then ok_or q (enqueue now (compact_request n) q)
      else q)

-- `_run_checks`, which is also `trigger_now`
unfoldable pub run_checks : ℕ → ℕ → ℕ → Text → Disk → Queue → Queue
unfolding check_each list_segments
run_checks num den now task_type s q =
    check_each num den now (test (text_discrete task_type (codes "compact"))) s.log.active_segment s
      (list_segments s.log) q
