-- ===== src/WriteQueue/Delivery.antt =====
-- Every delta that was enqueued is handed to the handler of writes, whatever the handler does with it.
use mk_db.Base.{
  ℕ, ◌-◌, ◌≤◌, ◌≡◌, ◌≢◌, refl, ◌∙◌, ap, Text, List, [], ◌∷◌, ◌++◌, Option, none, some, true, false,
  Dict, text_key, length, drop, ok, arith, Bool-cases, inl, inr, ltb, if◌then◌else◌, codes,
  length-append, All, ◌||◌,
}
use mk_db.Base.Dicts
use mk_db.Json.{Fields, end}
use mk_db.Json.Entries
use mk_db.WriteQueue.{
  Task, Queue, flushed, direct, sentinel, Handler, handler_of, bury, dispatch, pull, drain, Loop,
  Turn, drains, takes, enqueues, flushes, stops, Request, write_of, request_of, enqueue, or_same,
  flush_all, stop, begin, take_task, turn, run,
}
use mk_db.WriteQueue.Owed.{owed, replay, replay-append, IsValid, owed-flush_all, enqueue-Keeps}
use mk_db.WriteQueue.Drain.{drain-Same}
use mk_db.WriteQueue.Traced.{
  traced, traced_all, traced_option, get-traced_all, run-forget, forget_run,
}

length-drop_one : (ts : List Task) → length (drop 1 ts) ≡ length ts - 1
length-drop_one [] = refl
length-drop_one (t ∷ ts) = omega arith

capped-few :
    (ts : List Task)
    → length ts ≤ 1001
    → length (if ltb 1000 (length ts) then drop 1 ts else ts) ≤ 1000
capped-few ts h = ground (arith, length-drop_one ts)

bury-IsValid : (t : Task) (q : Queue) → IsValid q → IsValid (bury t q)
unfolding bury
bury-IsValid t q v = record {
  distinct = v.distinct;
  distinct_timers = v.distinct_timers;
  timed = v.timed;
  dicts = v.dicts;
  bounded = v.bounded;
  few_dead =
      capped-few (q.dead_letter ++ (t ∷ []))
        (omega (arith, length-append q.dead_letter (t ∷ []), v.few_dead));
}

-- The queue with other tasks.
abbrev pub with_queue : List Task → Queue → Queue
with_queue ts q = record q { queue = ts }

with_queue-IsValid : (ts : List Task) (q : Queue) → IsValid q → IsValid (with_queue ts q)
with_queue-IsValid ts q v = record {
  distinct = v.distinct;
  distinct_timers = v.distinct_timers;
  timed = v.timed;
  dicts = v.dicts;
  bounded = v.bounded;
  few_dead = v.few_dead;
}

-- A call of `enqueue` with a dictionary, as every delta is one.
abbrev pub IsSound : Turn → Type 0
IsSound (enqueues now (write_of (some id) d)) = Entries.HasDistinctKeys d
IsSound _ = Unit {0}

-- No write to the record is enqueued.
abbrev pub IsApart : Text → Turn → Type 0
IsApart j (enqueues now (write_of (some id) d)) = id ≢ j
IsApart j _ = Unit {0}

-- From a queue with some tasks handed over to another one: valid, and the tasks handed over with what
-- is owed give the same for each record that no write was enqueued for.
pub record Delivers (apart : Text → Type 0) (q : Queue) (log : List Task) (q' : Queue)
    (log' : List Task) : Type 0 where
  pub valid : IsValid q'
  pub owes :
      (j : Text) (base : Fields)
      → apart j
      → owed j q' (replay j log' base) ≡ owed j q (replay j log base)

-- A task that moves from the queue to those handed over.
owed-moved :
    (j : Text) (t : Task) (ts log : List Task) (q : Queue) (base : Fields)
    → owed j (with_queue ts q) (replay j (log ++ (t ∷ [])) base)
      ≡ owed j (with_queue (t ∷ ts) q) (replay j log base)
owed-moved j t ts log q base =
    ap (owed j (with_queue ts q)) (replay-append j log (t ∷ []) base)
    ∙ owed-head j t ts q (replay j log base)
  where
    owed-head :
        (j : Text) (t : Task) (ts : List Task) (q : Queue) (base : Fields)
        → owed j (with_queue ts q) (replay j (t ∷ []) base) ≡ owed j (with_queue (t ∷ ts) q) base
    owed-head j (flushed id d at) ts q base = unfold owed replay in refl
    owed-head j (direct op d) ts q base = unfold owed replay in refl
    owed-head j sentinel ts q base = unfold owed replay in refl

-- A task of no record that leaves the queue.
owed-direct :
    (j op : Text) (d : Fields) (ts : List Task) (q : Queue) (base : Fields)
    → owed j (with_queue ts q) base ≡ owed j (with_queue (direct op d ∷ ts) q) base
unfolding owed replay
owed-direct j op d ts q base = refl

owed-sentinel :
    (j : Text) (ts : List Task) (q : Queue) (base : Fields)
    → owed j (with_queue ts q) base ≡ owed j (with_queue (sentinel ∷ ts) q) base
unfolding owed replay
owed-sentinel j ts q base = refl

owed-stop :
    (now : ℕ) (j : Text) (base : Fields) (q : Queue)
    → owed j (stop now q) base ≡ owed j (flush_all now q) base
unfolding owed stop replay
owed-stop now j base q = rw (replay-append j (flush_all now q).queue (sentinel ∷ []) base) refl

stop-IsValid : (now : ℕ) (q : Queue) → IsValid (flush_all now q) → IsValid (stop now q)
unfolding stop
stop-IsValid now q v = record {
  distinct = v.distinct;
  distinct_timers = v.distinct_timers;
  timed = v.timed;
  dicts = v.dicts;
  bounded = v.bounded;
  few_dead = v.few_dead;
}

abbrev pub Any : Text → Type 0
Any j = Unit {0}

pub begin-going :
    (now : ℕ) (w : Loop) (q : Queue)
    → (w.waiting || w.ended) ≡ false
    → w.queue.stopped ≡ false
    → drain now w.queue ≡ ok q
    → begin now w ≡ ok (record w { queue = q; waiting = true })
unfolding begin
begin-going now w q there going ran = rw (there, begin, ran, going) refl

pub run-cons :
    {S : Type 0} (handlers : Dict Text (Handler S)) (t : Turn) (ts : List Turn) (w w' : Loop)
    (s s' : S)
    → turn handlers t w s ≡ ok (w', s')
    → run handlers (t ∷ ts) w s ≡ run handlers ts w' s'
unfolding run
run-cons handlers t ts w w' s s' h = rw h refl

-- The same queue with the same tasks handed over.
Delivers-refl :
    (apart : Text → Type 0) (q : Queue) (log : List Task) → IsValid q → Delivers apart q log q log
Delivers-refl apart q log v = record { valid = v; owes = λ j base a. refl }

module _ {S : Type 0} (handlers : Dict Text (Handler S)) where
  -- A dispatched task is put down, and the tasks behind it stay.
  dispatch-Delivers :
      (t : Task) (h : Handler S) (ts : List Task) (q : Queue) (s : S) (log : List Task)
      → IsValid q
      → let r = dispatch (some (traced h)) t (with_queue ts q) (s, log) in
        Delivers Any (with_queue (t ∷ ts) q) log r.0 r.1.1
  unfolding dispatch
  dispatch-Delivers t h ts q s log v = elim (Bool-cases (h t s).0) [
    | inl failed ↦ rw failed (record {
      valid = bury-IsValid t (with_queue ts q) (with_queue-IsValid ts q v);
      owes = λ j base a. unfold bury owed in (unfold owed in owed-moved j t ts log q base);
    })
    | inr passed ↦ rw passed (record {
      valid = with_queue-IsValid ts q v;
      owes = λ j base a. owed-moved j t ts log q base;
    })
  ]

  direct-Delivers :
      (o : Option (Handler S)) (op : Text) (d : Fields) (ts : List Task) (q : Queue) (s : S)
      (log : List Task)
      → IsValid q
      → let r = dispatch (traced_option o) (direct op d) (with_queue ts q) (s, log) in
        Delivers Any (with_queue (direct op d ∷ ts) q) log r.0 r.1.1
  direct-Delivers none op d ts q s log v =
      unfold dispatch in
      record {
        valid = with_queue-IsValid ts q v;
        owes = λ j base a. owed-direct j op d ts q (replay j log base);
      }
  direct-Delivers (some h) op d ts q s log v = dispatch-Delivers (direct op d) h ts q s log v

  -- The worker takes a task, or the sentinel.
  pull-Delivers :
      (h : Handler S) (ts : List Task) (q : Queue) (s : S) (log : List Task)
      → Dicts.get (codes "write") handlers ≡ some h
      → IsValid q
      → let r = pull (traced_all handlers) ts (with_queue ts q) (s, log) in
        Delivers Any (with_queue ts q) log r.1 r.2.1
  unfolding pull handler_of
  pull-Delivers h [] q s log found v =
      Delivers-refl Any (with_queue [] q) log (with_queue-IsValid [] q v)
  pull-Delivers h (sentinel ∷ ts) q s log found v = record {
    valid = with_queue-IsValid ts q v;
    owes = λ j base a. owed-sentinel j ts q (replay j log base);
  }
  pull-Delivers h (direct op d ∷ ts) q s log found v =
      rw (get-traced_all op handlers) (direct-Delivers (Dicts.get op handlers) op d ts q s log v)
  pull-Delivers h (flushed id d at ∷ ts) q s log found v =
      rw (get-traced_all (codes "write") handlers, found)
        (dispatch-Delivers (flushed id d at) h ts q s log v)

  abbrev pub DeliversTurn : (Text → Type 0) → Loop → List Task → Loop × (S × List Task) → Type 0
  DeliversTurn apart w log (w', (s', log')) = Delivers apart w.queue log w'.queue log'

  begin-Delivers :
      (now : ℕ) (w : Loop) (log : List Task)
      → IsValid w.queue
      → (w' : Loop) × (begin now w ≡ ok w') × Delivers Any w.queue log w'.queue log
  begin-Delivers now w log v = elim (Bool-cases (w.waiting || w.ended)) [
    | inl elsewhere ↦ (w, unfold begin in rw elsewhere refl, Delivers-refl Any w.queue log v)
    | inr there ↦ elim (Bool-cases w.queue.stopped) [
      | inl stopped ↦ (
        record w { ended = true },
        unfold begin in rw (there, stopped) refl,
        Delivers-refl Any w.queue log v,
      )
      | inr going ↦
          let (q, ran, same) = drain-Same now w.queue v in
          (
            record w { queue = q; waiting = true },
            begin-going now w q there going ran,
            record { valid = same.valid; owes = λ j base a. same.owes j (replay j log base) },
          )
    ]
  ]

  enqueue-Delivers :
      (now : ℕ) (r : Request) (q : Queue) (log : List Task)
      → IsValid q
      → IsSound (enqueues now r)
      → Delivers (λ j. IsApart j (enqueues now r)) q log (or_same q (enqueue now r q)) log
  enqueue-Delivers now (request_of op d) q log v k =
      unfold enqueue in
      record {
        valid = with_queue-IsValid (q.queue ++ (direct op d ∷ [])) q v;
        owes = λ j base a.
            unfold owed in
            rw (replay-append j q.queue (direct op d ∷ []) (replay j log base))
              (unfold replay in refl);
      }
  enqueue-Delivers now (write_of none d) q log v k = unfold enqueue in Delivers-refl _ q log v
  enqueue-Delivers now (write_of (some id) d) q log v k =
      let (valid, owes) = enqueue-Keeps now id d q v k in
      record { valid = valid; owes = λ j base a. owes j (replay j log base) a }

  turn-Delivers :
      (h : Handler S) (t : Turn) (w : Loop) (s : S) (log : List Task)
      → Dicts.get (codes "write") handlers ≡ some h
      → IsValid w.queue
      → IsSound t
      → (r : Loop × (S × List Task)) × (turn (traced_all handlers) t w (s, log) ≡ ok r)
        × DeliversTurn (λ j. IsApart j t) w log r
  turn-Delivers h (drains now) w s log found v k =
      let (w', ran, d) = begin-Delivers now w log v in
      ((w', (s, log)), unfold turn in rw ran refl, record { valid = d.valid; owes = d.owes })
  turn-Delivers h takes w s log found v k = (
    take_task (traced_all handlers) w (s, log),
    unfold turn in refl,
    elim (Bool-cases w.waiting) [
      | inr busy ↦ unfold take_task in rw busy (record { valid = v; owes = λ j base a. refl })
      | inl waits ↦
          let d = pull-Delivers h w.queue.queue w.queue s log found v in
          unfold take_task in rw waits (record { valid = d.valid; owes = d.owes })
    ],
  )
  turn-Delivers h (enqueues now r) w s log found v k = (
    (record w { queue = or_same w.queue (enqueue now r w.queue) }, (s, log)),
    unfold turn in refl,
    enqueue-Delivers now r w.queue log v k,
  )
  turn-Delivers h (flushes now) w s log found v k = (
    (record w { queue = flush_all now w.queue }, (s, log)),
    unfold turn in refl,
    record {
      valid = (owed-flush_all now [] end w.queue v).1;
      owes = λ j base a. (owed-flush_all now j (replay j log base) w.queue v).2;
    },
  )
  turn-Delivers h (stops now) w s log found v k = (
    (record w { queue = stop now w.queue }, (s, log)),
    unfold turn in refl,
    record {
      valid = stop-IsValid now w.queue (owed-flush_all now [] end w.queue v).1;
      owes = λ j base a.
          owed-stop now j (replay j log base) w.queue
          ∙ (owed-flush_all now j (replay j log base) w.queue v).2;
    },
  )

  run-traced :
      (h : Handler S) (turns : List Turn) (w : Loop) (s : S) (log : List Task)
      → Dicts.get (codes "write") handlers ≡ some h
      → IsValid w.queue
      → All IsSound turns
      → (r : Loop × (S × List Task)) × (run (traced_all handlers) turns w (s, log) ≡ ok r)
        × DeliversTurn (λ j. All (IsApart j) turns) w log r
  run-traced h [] w s log found v k =
      ((w, (s, log)), unfold run in refl, record { valid = v; owes = λ j base a. refl })
  run-traced h (t ∷ ts) w s log found v k =
      let ((w₁, (s₁, log₁)), first, d) = turn-Delivers h t w s log found v k.0 in
      let (r, rest, ds) = run-traced h ts w₁ s₁ log₁ found d.valid k.1 in
      (
        r,
        run-cons (traced_all handlers) t ts w w₁ (s, log) (s₁, log₁) first ∙ rest,
        record { valid = ds.valid; owes = λ j base a. ds.owes j base a.1 ∙ d.owes j base a.0 },
      )

  pub run-Delivers :
      (h : Handler S) (turns : List Turn) (w : Loop) (s : S)
      → Dicts.get (codes "write") handlers ≡ some h
      → IsValid w.queue
      → All IsSound turns
      → (w' : Loop) × (s' : S) × (log : List Task) × (run handlers turns w s ≡ ok (w', s'))
        × (run (traced_all handlers) turns w (s, []) ≡ ok (w', (s', log)))
        × IsValid w'.queue
        × ((j : Text) (base : Fields)
            → All (IsApart j) turns
            → owed j w'.queue (replay j log base) ≡ owed j w.queue base)
  run-Delivers h turns w s found v k =
      let ((w', (s', log)), ran, d) = run-traced h turns w s [] found v k in
      (
        w',
        s',
        log,
        run-forget handlers turns w s [] ∙ ap forget_run ran,
        ran,
        d.valid,
        λ j base a. d.owes j base a ∙ (unfold replay in refl),
      )
