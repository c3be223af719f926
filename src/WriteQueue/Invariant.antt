-- ===== src/WriteQueue/Invariant.antt =====
-- What each handler keeps unless it raises, the write queue's worker keeps while there is no dead letter.
use mk_db.Base.{
  ℕ, ◌≡◌, refl, Text, text_key, text_discrete, List, [], ◌∷◌, Option, none, some, Bool, true, false,
  Dict, ok, raise, ◌>>=◌, raise-ne-ok, ok-injective, if◌then◌else◌, codes, ite, sym, ◌∙◌, ap, ◌≢◌,
  ◌++◌, Bool-cases, inl, inr, ltb, leb, length, drop, not, ◌&&◌, ◌||◌, contains, or_raise,
  key_error, arith,
}
use mk_db.Base.Dicts
use mk_db.Base.Result.{Result}
use mk_db.WriteQueue.{
  Task, flushed, direct, sentinel, Queue, Handler, handler_of, dispatch, bury, pull, drain,
  drain_one, drain_each, due, Loop, Turn, drains, takes, enqueues, flushes, stops, Request,
  write_of, request_of, enqueue, or_same, flush_all, stop, begin, take_task, turn, run,
}

-- Inversion of a chain that does not raise.
>>=-eq-ok :
    {A B : Type 0} (x : Result A) (f : A → Result B) {b : B}
    → (x >>= f) ≡ ok b
    → (a : A) × (x ≡ ok a) × (f a ≡ ok b)
>>=-eq-ok (ok a) f h = (a, refl, h)
>>=-eq-ok (raise e) f {b} h = absurd (raise-ne-ok e b h)

bury-not_empty : (t : Task) (q : Queue) → (bury t q).dead_letter ≢ []
unfolding bury
bury-not_empty t q = not_empty q.dead_letter t
  where
    not_empty :
        (ts : List Task) (t : Task)
        → (if ltb 1000 (length (ts ++ (t ∷ []))) then drop 1 (ts ++ (t ∷ [])) else ts ++ (t ∷ []))
          ≢ []
    not_empty [] t h = cc
    not_empty (a ∷ []) t h = ground arith
    not_empty (a ∷ b ∷ ts) t h = ground arith

dead-drain_each :
    (ids : List Text) (q q' : Queue) → drain_each ids q ≡ ok q' → q'.dead_letter ≡ q.dead_letter
unfolding drain_each drain_one
dead-drain_each [] q q' h = sym (ap (λ x. x.dead_letter) (ok-injective q q' h))
dead-drain_each (id ∷ ids) q q' h =
    let (q₁, first, rest) = >>=-eq-ok (drain_one id q) (drain_each ids) h in
    let (d, delta, then_) = >>=-eq-ok (or_raise key_error (Dicts.get id q.pending)) _ first in
    let (ts, timer, last) = >>=-eq-ok (or_raise key_error (Dicts.get id q.timers)) _ then_ in
    dead-drain_each ids q₁ q' rest ∙ sym (ap (λ x. x.dead_letter) (ok-injective _ q₁ last))

dead-begin :
    (now : ℕ) (w w' : Loop) → begin now w ≡ ok w' → w'.queue.dead_letter ≡ w.queue.dead_letter
unfolding begin drain
dead-begin now w w' h = by_place (w.waiting || w.ended) h
  where
    after_drain :
        (do
          q ← drain_each (due now w.queue.debounce_window w.queue.timers) w.queue
          ok (record w { queue = q; waiting = true }))
          ≡ ok w'
        → w'.queue.dead_letter ≡ w.queue.dead_letter
    after_drain e =
        let ids = due now w.queue.debounce_window w.queue.timers in
        let (q, ran, last) =
          >>=-eq-ok (drain_each ids w.queue) (λ q. ok (record w { queue = q; waiting = true })) e in
        sym (
          ap (λ x. x.queue.dead_letter)
            (ok-injective (record w { queue = q; waiting = true }) w' last))
        ∙ dead-drain_each ids w.queue q ran

    by_event :
        (b : Bool)
        → (if b
            then ok (record w { ended = true })
            else do q ← drain now w.queue; ok (record w { queue = q; waiting = true }))
          ≡ ok w'
        → w'.queue.dead_letter ≡ w.queue.dead_letter
    by_event true e =
        sym (ap (λ x. x.queue.dead_letter) (ok-injective (record w { ended = true }) w' e))
    by_event false e = after_drain e

    by_place :
        (b : Bool)
        → (if b
            then ok w
            else if w.queue.stopped
            then ok (record w { ended = true })
            else do q ← drain now w.queue; ok (record w { queue = q; waiting = true }))
          ≡ ok w'
        → w'.queue.dead_letter ≡ w.queue.dead_letter
    by_place true e = sym (ap (λ x. x.queue.dead_letter) (ok-injective w w' e))
    by_place false e = by_event w.queue.stopped e

dead-enqueue :
    (now : ℕ) (r : Request) (q : Queue) → (or_same q (enqueue now r q)).dead_letter ≡ q.dead_letter
unfolding enqueue
dead-enqueue now (request_of op d) q = refl
dead-enqueue now (write_of none d) q = refl
dead-enqueue now (write_of (some id) d) q =
    elim (Bool-cases (not (contains id q.pending) && leb q.max_pending (length q.pending))) [
      | inl full ↦ rw full refl
      | inr room ↦ rw room refl
    ]

module _ {S : Type 0} (P : S → Type 0) where
  abbrev IsKept : Handler S → Type 0
  IsKept handle = (t : Task) (s : S) → P s → (handle t s).0 ≡ false → P (handle t s).1

  abbrev pub AreKept : Dict Text (Handler S) → Type 0
  AreKept [] = Unit {0}
  AreKept ((op, handle) ∷ rest) = IsKept handle × AreKept rest

  abbrev IsKeptAt : Option (Handler S) → Type 0
  IsKeptAt none = Unit {0}
  IsKeptAt (some handle) = IsKept handle

  get-AreKept :
      (op : Text) (handlers : Dict Text (Handler S))
      → AreKept handlers
      → IsKeptAt (Dicts.get op handlers)
  unfolding Dicts.get
  get-AreKept op [] k = tt
  get-AreKept op ((o, f) ∷ rest) (k, ks) =
      elim (text_discrete o op) as (λ d. IsKeptAt (ite d (some f) (Dicts.get op rest))) [
        | yes same ↦ k
        | no other ↦ get-AreKept op rest ks
      ]

  -- Unless a task has failed, it holds.
  abbrev pub HoldsUnless : Queue → S → Type 0
  HoldsUnless q s = q.dead_letter ≡ [] → P s

  same-HoldsUnless :
      {a b : Loop × S} → a ≡ b → HoldsUnless a.0.queue a.1 → HoldsUnless b.0.queue b.1
  same-HoldsUnless e h = rw (← e) h

  dispatch-keeps :
      (handle : Option (Handler S)) (t : Task) (q : Queue) (s : S)
      → IsKeptAt handle
      → HoldsUnless q s
      → HoldsUnless (dispatch handle t q s).0 (dispatch handle t q s).1
  unfolding dispatch
  dispatch-keeps none t q s k h = h
  dispatch-keeps (some handle) t q s k h = elim (Bool-cases (handle t s).0) [
    | inl failed ↦ rw failed (λ empty. absurd (bury-not_empty t q empty))
    | inr passed ↦ rw passed (λ empty. k t s (h empty) passed)
  ]

  pull-keeps :
      (handlers : Dict Text (Handler S)) (ts : List Task) (q : Queue) (s : S)
      → AreKept handlers
      → HoldsUnless q s
      → HoldsUnless (pull handlers ts q s).1 (pull handlers ts q s).2
  unfolding pull handler_of
  pull-keeps handlers [] q s k h = h
  pull-keeps handlers (sentinel ∷ ts) q s k h = h
  pull-keeps handlers (flushed id d at ∷ ts) q s k h =
      dispatch-keeps (Dicts.get (codes "write") handlers) (flushed id d at)
        (record q { queue = ts }) s (get-AreKept (codes "write") handlers k) h
  pull-keeps handlers (direct op d ∷ ts) q s k h =
      dispatch-keeps (Dicts.get op handlers) (direct op d) (record q { queue = ts }) s
        (get-AreKept op handlers k) h

  take_task-keeps :
      (handlers : Dict Text (Handler S)) (w : Loop) (s : S)
      → AreKept handlers
      → HoldsUnless w.queue s
      → let (w', s') = take_task handlers w s in HoldsUnless w'.queue s'
  unfolding take_task
  take_task-keeps handlers w s k h = elim (Bool-cases w.waiting) [
    | inl waits ↦ rw waits (pull-keeps handlers w.queue.queue w.queue s k h)
    | inr busy ↦ rw busy h
  ]

  turn-keeps :
      (handlers : Dict Text (Handler S)) (t : Turn) (w w' : Loop) (s s' : S)
      → AreKept handlers
      → HoldsUnless w.queue s
      → turn handlers t w s ≡ ok (w', s')
      → HoldsUnless w'.queue s'
  unfolding turn
  turn-keeps handlers (drains now) w w' s s' k h e =
      let (w₁, began, ends) = >>=-eq-ok (begin now w) (λ x. ok (x, s)) e in
      same-HoldsUnless (ok-injective (w₁, s) (w', s') ends)
        (λ empty. h (sym (dead-begin now w w₁ began) ∙ empty))
  turn-keeps handlers takes w w' s s' k h e =
      same-HoldsUnless (ok-injective (take_task handlers w s) (w', s') e)
        (take_task-keeps handlers w s k h)
  turn-keeps handlers (enqueues now r) w w' s s' k h e =
      same-HoldsUnless
        (ok-injective (record w { queue = or_same w.queue (enqueue now r w.queue) }, s) (w', s') e)
        (λ empty. h (sym (dead-enqueue now r w.queue) ∙ empty))
  turn-keeps handlers (flushes now) w w' s s' k h e =
      same-HoldsUnless (ok-injective (record w { queue = flush_all now w.queue }, s) (w', s') e)
        (unfold flush_all in h)
  turn-keeps handlers (stops now) w w' s s' k h e =
      same-HoldsUnless (ok-injective (record w { queue = stop now w.queue }, s) (w', s') e)
        (unfold stop flush_all in h)

  -- It holds after a run without a dead letter, whatever the handlers are, if each that does not raise keeps
  -- it.
  pub run-keeps :
      (handlers : Dict Text (Handler S)) (turns : List Turn) (w w' : Loop) (s s' : S)
      → AreKept handlers
      → HoldsUnless w.queue s
      → run handlers turns w s ≡ ok (w', s')
      → HoldsUnless w'.queue s'
  unfolding run
  run-keeps handlers [] w w' s s' k h e = same-HoldsUnless (ok-injective (w, s) (w', s') e) h
  run-keeps handlers (t ∷ ts) w w' s s' k h e =
      let ((w₁, s₁), first, rest) =
        >>=-eq-ok (turn handlers t w s) (λ x. run handlers ts x.0 x.1) e in
      run-keeps handlers ts w₁ w' s₁ s' k (turn-keeps handlers t w w₁ s s₁ k h first) rest
