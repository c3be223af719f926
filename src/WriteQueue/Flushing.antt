-- ===== src/WriteQueue/Flushing.antt =====
-- After `flush_all` the worker hands over everything that was owed, with one round for each task.
use mk_db.Base.{
  ℕ, ◌≡◌, ◌≢◌, refl, sym, ◌∙◌, ap, Text, List, [], ◌∷◌, ◌++◌, Option, none, some, true, false, Dict,
  text_key, length, ok, arith, Bool-cases, inl, inr, codes, All, ok-injective,
}
use mk_db.Base.Dicts
use mk_db.Json.{Fields}
use mk_db.WriteQueue.{
  Task, Queue, flushed, direct, sentinel, Handler, handler_of, bury, dispatch, and_on, taken, pull,
  due, drain_each, drain, flush_tasks, flush_all, Loop, Turn, drains, takes, flushes, take_task,
  turn, run,
}
use mk_db.WriteQueue.Owed.{owed, replay, IsValid}
use mk_db.WriteQueue.Traced.{traced_all}
use mk_db.WriteQueue.Delivery.{with_queue, IsSound, IsApart, begin-going, run-cons, run-Delivers}

-- A round for each clock reading: the worker drains, waits, and takes a task.
abbrev pub rounds_at : List ℕ → List Turn
rounds_at [] = []
rounds_at (now ∷ nows) = drains now ∷ (takes ∷ rounds_at nows)

rounds_at-AreSound : (nows : List ℕ) → All IsSound (rounds_at nows)
rounds_at-AreSound [] = tt
rounds_at-AreSound (now ∷ nows) = (tt, (tt, rounds_at-AreSound nows))

rounds_at-AreApart : (j : Text) (nows : List ℕ) → All (IsApart j) (rounds_at nows)
rounds_at-AreApart j [] = tt
rounds_at-AreApart j (now ∷ nows) = (tt, (tt, rounds_at-AreApart j nows))

AreTasks-append :
    (ts us : List Task)
    → All (λ t. t ≢ sentinel) ts
    → All (λ t. t ≢ sentinel) us
    → All (λ t. t ≢ sentinel) (ts ++ us)
AreTasks-append [] us h k = k
AreTasks-append (t ∷ ts) us h k = (h.0, AreTasks-append ts us h.1 k)

AreTasks-flush_tasks :
    (now : ℕ) (p : Dict Text Fields) → All (λ t. t ≢ sentinel) (flush_tasks now p)
unfolding flush_tasks
AreTasks-flush_tasks now [] = tt
AreTasks-flush_tasks now ((id, d) ∷ p) = ((λ same. cc), AreTasks-flush_tasks now p)

-- Nothing is pending, and the event that ends the loop is not set.
record IsFlushed (q : Queue) : Type 0 where
  pending : q.pending ≡ []
  timers : q.timers ≡ []
  going : q.stopped ≡ false

drain-flushed : (now : ℕ) (q : Queue) → IsFlushed q → drain now q ≡ ok q
unfolding drain due drain_each
drain-flushed now q f = rw (f.timers) refl

module _ {S : Type 0} (handlers : Dict Text (Handler S)) where
  dispatch-IsFlushed :
      (o : Option (Handler S)) (t : Task) (q : Queue) (s : S)
      → IsFlushed q
      → IsFlushed (dispatch o t q s).0 × ((dispatch o t q s).0.queue ≡ q.queue)
  unfolding dispatch
  dispatch-IsFlushed none t q s f = (f, refl)
  dispatch-IsFlushed (some h) t q s f = elim (Bool-cases (h t s).0) [
    | inl failed ↦
        rw failed (
          unfold bury in (record { pending = f.pending; timers = f.timers; going = f.going }, refl))
    | inr passed ↦ rw passed (f, refl)
  ]

  pull-task :
      (t : Task) (ts : List Task) (q : Queue) (s : S)
      → t ≢ sentinel
      → pull handlers (t ∷ ts) q s ≡ and_on (dispatch (handler_of handlers t) t (with_queue ts q) s)
  unfolding pull
  pull-task (flushed id d at_time) ts q s h = refl
  pull-task (direct op d) ts q s h = refl
  pull-task sentinel ts q s h = absurd (h refl)

  -- The worker where it begins a round.
  abbrev ready : Queue → Loop
  ready q = record { queue = q; waiting = false; ended = false }

  turn-drains :
      (now : ℕ) (q : Queue) (s : S)
      → IsFlushed q
      → turn handlers (drains now) (ready q) s
        ≡ ok (record { queue = q; waiting = true; ended = false }, s)
  unfolding turn
  turn-drains now q s f = rw (begin-going now (ready q) q refl f.going (drain-flushed now q f)) refl

  turn-takes :
      (t : Task) (ts : List Task) (q : Queue) (s : S)
      → q.queue ≡ t ∷ ts
      → t ≢ sentinel
      → let (q', s') = dispatch (handler_of handlers t) t (with_queue ts q) s in
        turn handlers takes (record { queue = q; waiting = true; ended = false }) s
        ≡ ok (ready q', s')
  unfolding turn take_task
  turn-takes t ts q s shape task =
      ap (λ x. ok (taken x)) (ap (λ x. pull handlers x q s) shape ∙ pull-task t ts q s task)

  -- Each round takes one task.
  run-flushed :
      (ts : List Task) (nows : List ℕ) (q : Queue) (s : S)
      → length nows ≡ length ts
      → All (λ t. t ≢ sentinel) ts
      → IsFlushed q
      → q.queue ≡ ts
      → (w' : Loop) × (s' : S) × (run handlers (rounds_at nows) (ready q) s ≡ ok (w', s'))
        × (w'.queue.queue ≡ [])
        × (w'.queue.pending ≡ [])
  run-flushed [] [] q s l tasks f shape = (ready q, s, unfold run in refl, shape, f.pending)
  run-flushed [] (now ∷ nows) q s l tasks f shape = absurd (omega arith)
  run-flushed (t ∷ ts) [] q s l tasks f shape = absurd (omega arith)
  run-flushed (t ∷ ts) (now ∷ nows) q s l tasks f shape =
      let r = dispatch (handler_of handlers t) t (with_queue ts q) s in
      let held : IsFlushed (with_queue ts q) = record {
        pending = f.pending;
        timers = f.timers;
        going = f.going;
      } in
      let (flushed_on, kept) =
        dispatch-IsFlushed (handler_of handlers t) t (with_queue ts q) s held in
      let (w', s', ran, empty, settled) =
        run-flushed ts nows r.0 r.1 (omega arith) tasks.1 flushed_on kept in
      let waits : Loop = record { queue = q; waiting = true; ended = false } in
      (
        w',
        s',
        run-cons handlers (drains now) (takes ∷ rounds_at nows) (ready q) waits s s
              (turn-drains now q s f)
            ∙ (run-cons handlers takes (rounds_at nows) waits (ready r.0) s r.1
                  (turn-takes t ts q s shape tasks.0)
                ∙ ran),
        empty,
        settled,
      )

-- With any handlers, of which one is for writes: a valid queue whose worker begins a round, was not
-- stopped and holds no sentinel is worked off after `flush_all` by one round for each of its tasks.
-- Nothing is then on the queue or pending, and the deltas handed to the handler, in their order, come to
-- what was owed to each record, whether the handler fails or not.
pub run-flush_all :
    {S : Type 0} (handlers : Dict Text (Handler S)) (h : Handler S) (now : ℕ) (nows : List ℕ)
    (q : Queue) (s : S)
    → Dicts.get (codes "write") handlers ≡ some h
    → IsValid q
    → q.stopped ≡ false
    → All (λ t. t ≢ sentinel) q.queue
    → length nows ≡ length (flush_all now q).queue
    → (w' : Loop) × (s' : S) × (log : List Task) × (run handlers
          (flushes now ∷ rounds_at nows)
          (record { queue = q; waiting = false; ended = false })
          s
        ≡ ok (w', s'))
      × (run
            (traced_all handlers)
            (flushes now ∷ rounds_at nows)
            (record { queue = q; waiting = false; ended = false })
            (s, [])
          ≡ ok (w', (s', log)))
      × (w'.queue.queue ≡ [])
      × (w'.queue.pending ≡ [])
      × ((j : Text) (base : Fields) → replay j log base ≡ owed j q base)
run-flush_all handlers h now nows q s found v going tasks l =
    let start : Loop = record { queue = q; waiting = false; ended = false } in
    let (w', s', log, ran, traced, valid, owes) =
      run-Delivers handlers h (flushes now ∷ rounds_at nows) start s found v
        (tt, rounds_at-AreSound nows) in
    let f : IsFlushed (flush_all now q) =
      unfold flush_all in record { pending = refl; timers = refl; going = going } in
    let all : All (λ t. t ≢ sentinel) (flush_all now q).queue =
      unfold flush_all in
      AreTasks-append q.queue (flush_tasks now q.pending) tasks
        (AreTasks-flush_tasks now q.pending) in
    let (w₂, s₂, ran₂, empty, settled) =
      run-flushed handlers (flush_all now q).queue nows (flush_all now q) s l all f refl in
    let first : turn handlers (flushes now) start s
        ≡ ok (record { queue = flush_all now q; waiting = false; ended = false }, s) =
      unfold turn in refl in
    let same : (w₂, s₂) ≡ (w', s') =
      ok-injective (w₂, s₂) (w', s')
        (sym ran₂
          ∙ (sym (
                run-cons handlers (flushes now) (rounds_at nows) start
                  (record { queue = flush_all now q; waiting = false; ended = false }) s s first)
              ∙ ran)) in
    let done : w'.queue.queue ≡ [] = sym (ap (λ x. x.0.queue.queue) same) ∙ empty in
    let none_left : w'.queue.pending ≡ [] = sym (ap (λ x. x.0.queue.pending) same) ∙ settled in
    (
      w',
      s',
      log,
      ran,
      traced,
      done,
      none_left,
      λ j base.
          sym (owed-empty j w'.queue (replay j log base) done none_left)
          ∙ owes j base (tt, rounds_at-AreApart j nows),
    )
  where
    owed-empty :
        (j : Text) (q : Queue) (base : Fields)
        → q.queue ≡ []
        → q.pending ≡ []
        → owed j q base ≡ base
    owed-empty j q base empty settled = unfold owed replay Dicts.get in rw (empty, settled) refl
