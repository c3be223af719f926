-- ===== src/WriteQueue/Traced.antt =====
-- The worker with a list of the tasks that it hands to its handlers, whatever these do with them.
use mk_db.Base.{
  ◌≡◌, refl, ap, Text, List, [], ◌∷◌, ◌++◌, Option, none, some, Bool, true, Dict, text_key,
  text_discrete, ok, raise, ◌>>=◌, Bool-cases, inl, inr, ite,
}
use mk_db.Base.Dicts
use mk_db.Base.Result.{Result}
use mk_db.WriteQueue.{
  Task, flushed, direct, sentinel, Queue, Handler, handler_of, dispatch, pull, Loop, Turn, drains,
  takes, enqueues, flushes, stops, begin, take_task, turn, run,
}

module _ {S : Type 0} where
  abbrev pub traced : Handler S → Handler (S × List Task)
  traced handle t (s, log) = let (failed, s') = handle t s in (failed, (s', log ++ (t ∷ [])))

  -- Each handler, with its tasks put down.
  abbrev pub traced_all : Dict Text (Handler S) → Dict Text (Handler (S × List Task))
  traced_all [] = []
  traced_all ((op, handle) ∷ rest) = (op, traced handle) ∷ traced_all rest

  abbrev pub traced_option : Option (Handler S) → Option (Handler (S × List Task))
  traced_option none = none
  traced_option (some handle) = some (traced handle)

  pub get-traced_all :
      (op : Text) (handlers : Dict Text (Handler S))
      → Dicts.get op (traced_all handlers) ≡ traced_option (Dicts.get op handlers)
  unfolding Dicts.get
  get-traced_all op [] = refl
  get-traced_all op ((o, handle) ∷ rest) =
      elim (text_discrete o op)
        as (λ d.
          ite d (some (traced handle)) (Dicts.get op (traced_all rest))
          ≡ traced_option (ite d (some handle) (Dicts.get op rest))) [
            | yes same ↦ refl
            | no other ↦ get-traced_all op rest
          ]

  -- The same without the list.
  abbrev pub forget : {A : Type 0} → A × (S × List Task) → A × S
  forget (a, (s, log)) = (a, s)

  abbrev pub forget_run : Result (Loop × (S × List Task)) → Result (Loop × S)
  forget_run (ok x) = ok (forget x)
  forget_run (raise x) = raise x

  dispatch-forget :
      (o : Option (Handler S)) (t : Task) (q : Queue) (s : S) (log : List Task)
      → dispatch o t q s ≡ forget (dispatch (traced_option o) t q (s, log))
  unfolding dispatch
  dispatch-forget none t q s log = refl
  dispatch-forget (some handle) t q s log = refl

  abbrev forget_pull : Bool × Queue × (S × List Task) → Bool × Queue × S
  forget_pull (on, q, (s, log)) = (on, q, s)

  module _ (handlers : Dict Text (Handler S)) where
    pull_task-forget :
        (op : Text) (t : Task) (q : Queue) (s : S) (log : List Task)
        → dispatch (Dicts.get op handlers) t q s
          ≡ forget (dispatch (Dicts.get op (traced_all handlers)) t q (s, log))
    pull_task-forget op t q s log =
        rw (get-traced_all op handlers) (dispatch-forget (Dicts.get op handlers) t q s log)

    pull-forget :
        (ts : List Task) (q : Queue) (s : S) (log : List Task)
        → pull handlers ts q s ≡ forget_pull (pull (traced_all handlers) ts q (s, log))
    unfolding pull handler_of
    pull-forget [] q s log = refl
    pull-forget (sentinel ∷ ts) q s log = refl
    pull-forget (flushed id d at ∷ ts) q s log =
        ap (λ x. (true, x.0, x.1))
          (pull_task-forget _ (flushed id d at) (record q { queue = ts }) s log)
    pull-forget (direct op d ∷ ts) q s log =
        ap (λ x. (true, x.0, x.1))
          (pull_task-forget op (direct op d) (record q { queue = ts }) s log)

    turn-forget :
        (t : Turn) (w : Loop) (s : S) (log : List Task)
        → turn handlers t w s ≡ forget_run (turn (traced_all handlers) t w (s, log))
    unfolding turn take_task
    turn-forget (drains now) w s log = by_result (begin now w)
      where
        by_result :
            (x : Result Loop) → (do w' ← x; ok (w', s)) ≡ forget_run (do w' ← x; ok (w', (s, log)))
        by_result (ok w') = refl
        by_result (raise x) = refl
    turn-forget takes w s log = elim (Bool-cases w.waiting) [
      | inl waits ↦ rw waits (rw (pull-forget w.queue.queue w.queue s log) refl)
      | inr busy ↦ rw busy refl
    ]
    turn-forget (enqueues now r) w s log = refl
    turn-forget (flushes now) w s log = refl
    turn-forget (stops now) w s log = refl

    then-forget :
        (ts : List Turn) (x : Result (Loop × (S × List Task)))
        → ((w : Loop) (s : S) (log : List Task)
            → run handlers ts w s ≡ forget_run (run (traced_all handlers) ts w (s, log)))
        → (do (w', s') ← forget_run x; run handlers ts w' s')
          ≡ forget_run (do (w', p) ← x; run (traced_all handlers) ts w' p)
    then-forget ts (raise x) h = refl
    then-forget ts (ok (w', (s', log'))) h = h w' s' log'

    -- The list changes nothing for the worker.
    pub run-forget :
        (ts : List Turn) (w : Loop) (s : S) (log : List Task)
        → run handlers ts w s ≡ forget_run (run (traced_all handlers) ts w (s, log))
    unfolding run
    run-forget [] w s log = refl
    run-forget (t ∷ ts) w s log = rw (turn-forget t w s log) (
        then-forget ts (turn (traced_all handlers) t w (s, log))
          (λ w' s' log'. run-forget ts w' s' log'))
