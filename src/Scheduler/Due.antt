-- ===== src/Scheduler/Due.antt =====
-- What the scheduler enqueues, and what the compactor then does with it.
use mk_db.Base.{
  text_discrete, ℕ, ◌≡◌, sym, ◌∙◌, ap, codes, List, [], ◌∷◌, ◌++◌, true, false, ◌==◌, if◌then◌else◌,
}
use mathlib.Core.List.{append_assoc, append-nil}
use mk_db.Json.{int, end, field}
use mk_db.Log.{list_segments}
use mk_db.Disk.{Disk}
use mk_db.Compactor.{needs_compaction}
use mk_db.WriteQueue.{Queue, Task, direct, enqueue}
use mk_db.Scheduler.{check_each, run_checks}

-- The segments that are sealed and need compaction, in their order.
abbrev pub due : ℕ → ℕ → Disk → List ℕ → List ℕ
due num den s [] = []
due num den s (n ∷ ns) =
    if n == s.log.active_segment
    then due num den s ns
    else if needs_compaction num den n s
    then n ∷ due num den s ns
    else due num den s ns

abbrev compact_tasks : List ℕ → List Task
compact_tasks [] = []
compact_tasks (n ∷ ns) =
    direct (codes "compact") (field (codes "segment") (int false n) end) ∷ compact_tasks ns

-- The queue with tasks at its end.
abbrev with_tasks : Queue → List Task → Queue
with_tasks q ts = record q { queue = q.queue ++ ts }

check_each-due :
    (num den now : ℕ) (s : Disk) (ns : List ℕ) (q : Queue)
    → check_each num den now true s.log.active_segment s ns q
      ≡ with_tasks q (compact_tasks (due num den s ns))
unfolding check_each enqueue
check_each-due num den now s [] q = ap (λ ts. record q { queue = ts }) (sym (append-nil q.queue))
check_each-due num den now s (n ∷ ns) q =
    elim (n == s.log.active_segment)
      as (λ b.
        check_each num den now true s.log.active_segment s ns
          (if b then q else if needs_compaction num den n s then added n q else q)
        ≡ with_tasks q (
            compact_tasks (
              if b
              then due num den s ns
              else if needs_compaction num den n s
              then n ∷ due num den s ns
              else due num den s ns))) [
                | true ↦ check_each-due num den now s ns q
                | false ↦
                    elim (needs_compaction num den n s)
                      as (λ b.
                        check_each num den now true s.log.active_segment s ns
                          (if b then added n q else q)
                        ≡ with_tasks q (
                            compact_tasks (if b then n ∷ due num den s ns else due num den s ns))) [
                              | true ↦
                                  check_each-due num den now s ns (added n q)
                                  ∙ ap (λ ts. record q { queue = ts })
                                      (append_assoc q.queue (compact_tasks (n ∷ []))
                                        (compact_tasks (due num den s ns)))
                              | false ↦ check_each-due num den now s ns q
                            ]
              ]
  where
    added : ℕ → Queue → Queue
    added n q = with_tasks q (compact_tasks (n ∷ []))

-- A check of the scheduler enqueues one "compact" task for each segment, in ascending order, that is not
-- the active one and wastes more than the threshold allows, and changes nothing else of the queue.
run_checks-due :
    (num den now : ℕ) (s : Disk) (q : Queue)
    → run_checks num den now (codes "compact") s q
      ≡ with_tasks q (compact_tasks (due num den s (list_segments s.log)))
unfolding run_checks text_discrete
run_checks-due num den now s q = check_each-due num den now s (list_segments s.log) q
