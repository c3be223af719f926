-- ===== src/WriteQueue/Drain.antt =====
-- The first half of a round of the worker loses nothing.
use mk_db.Base.{
  ℕ, ◌+◌, ◌≡◌, ◌≢◌, refl, sym, ◌∙◌, Text, List, [], ◌∷◌, ◌++◌, Option, none, some, true, Dict,
  remove, contains, text_key, get-remove, length-remove-le, remove-HasDistinctKeys, ok, arith,
  HasDistinctKeys, Bool-cases, inl, inr, is_some, leb,
}
use mk_db.Base.Dicts
use mk_db.Json.{Fields}
use mk_db.WriteQueue.{Queue, flushed, due, drain_one, drain_each, drain}
use mk_db.WriteQueue.Owed.{owed, replay, replay-append, IsValid}

abbrev NotIn : Text → List Text → Type 0
NotIn id [] = Unit {0}
NotIn id (j ∷ js) = (id ≢ j) × NotIn id js

-- Every id of the list has a timer, and none stands twice.
abbrev AreTimed : List Text → Dict Text ℕ → Type 0
AreTimed [] t = Unit {0}
AreTimed (id ∷ ids) t = (contains id t ≡ true) × NotIn id ids × AreTimed ids t

AreTimed-cons :
    (ids : List Text) (id : Text) (ts : ℕ) (t : Dict Text ℕ)
    → AreTimed ids t
    → AreTimed ids ((id, ts) ∷ t)
unfolding Dicts.get
AreTimed-cons [] id ts t h = tt
AreTimed-cons (j ∷ ids) id ts t h = (ground (arith, h.0), h.1, AreTimed-cons ids id ts t h.2)

AreTimed-remove :
    (ids : List Text) (id : Text) (t : Dict Text ℕ)
    → NotIn id ids
    → AreTimed ids t
    → AreTimed ids (remove id t)
AreTimed-remove [] id t n h = tt
AreTimed-remove (j ∷ ids) id t n h =
    (ground (arith, get-remove id j t, h.0, n.0), h.1, AreTimed-remove ids id t n.1 h.2)

NotIn-due :
    (now window : ℕ) (id : Text) (t : Dict Text ℕ)
    → Dicts.get id t ≡ none
    → NotIn id (due now window t)
unfolding due Dicts.get
NotIn-due now window id [] h = tt
NotIn-due now window id ((j, ts) ∷ t) h = elim (Bool-cases (leb (ts + window) now)) [
  | inl past ↦ rw past ((λ same. ground arith), NotIn-due now window id t (ground arith))
  | inr before ↦ rw before (NotIn-due now window id t (ground arith))
]

AreTimed-due :
    (now window : ℕ) (t : Dict Text ℕ) → HasDistinctKeys t → AreTimed (due now window t) t
unfolding due Dicts.get
AreTimed-due now window [] h = tt
AreTimed-due now window ((id, ts) ∷ t) h =
    let rest = AreTimed-cons (due now window t) id ts t (AreTimed-due now window t h.1) in
    elim (Bool-cases (leb (ts + window) now)) [
      | inl past ↦ rw past (ground arith, NotIn-due now window id t h.0, rest)
      | inr before ↦ rw before rest
    ]

drained : Text → Fields → ℕ → Queue → Queue
drained id d ts q = record q {
  queue = q.queue ++ (flushed id d ts ∷ []);
  pending = remove id q.pending;
  timers = remove id q.timers;
}

drain_one-drained :
    (id : Text) (d : Fields) (ts : ℕ) (q : Queue)
    → Dicts.get id q.pending ≡ some d
    → Dicts.get id q.timers ≡ some ts
    → drain_one id q ≡ ok (drained id d ts q)
unfolding drain_one drained
drain_one-drained id d ts q h k = rw (h, drain_one, k) refl

drained-IsValid :
    (id : Text) (d : Fields) (ts : ℕ) (q : Queue) → IsValid q → IsValid (drained id d ts q)
unfolding drained
drained-IsValid id d ts q v = record {
  distinct = remove-HasDistinctKeys id q.pending v.distinct;
  distinct_timers = remove-HasDistinctKeys id q.timers v.distinct_timers;
  timed = λ j. ground (arith, get-remove id j q.pending, get-remove id j q.timers, v.timed j);
  dicts = λ j p found. v.dicts j p (ground (arith, get-remove id j q.pending));
  bounded = omega (arith, length-remove-le id q.pending, v.bounded);
  few_dead = v.few_dead;
}

owed-drained :
    (id j : Text) (d base : Fields) (ts : ℕ) (q : Queue)
    → Dicts.get id q.pending ≡ some d
    → owed j (drained id d ts q) base ≡ owed j q base
unfolding drained owed replay
owed-drained id j d base ts q h =
    ground (arith, replay-append j q.queue (flushed id d ts ∷ []) base, get-remove id j q.pending)

is_some-some : {A : Type 0} (o : Option A) → is_some o ≡ true → (a : A) × (o ≡ some a)
is_some-some none h = absurd (ground arith)
is_some-some (some a) h = (a, refl)

-- The state after some deltas were flushed is valid and owes the same.
pub record Same (q q' : Queue) : Type 0 where
  pub valid : IsValid q'
  pub owes : (j : Text) (base : Fields) → owed j q' base ≡ owed j q base

drain_each-cons :
    (id : Text) (ids : List Text) (q q' : Queue)
    → drain_one id q ≡ ok q'
    → drain_each (id ∷ ids) q ≡ drain_each ids q'
unfolding drain_each
drain_each-cons id ids q q' h = rw (h, drain_each) refl

drain_each-Same :
    (ids : List Text) (q : Queue)
    → IsValid q
    → AreTimed ids q.timers
    → (q' : Queue) × (drain_each ids q ≡ ok q') × Same q q'
drain_each-Same [] q v h =
    (q, unfold drain_each in refl, record { valid = v; owes = λ j base. refl })
drain_each-Same (id ∷ ids) q v h =
    let (ts, timer) = is_some-some (Dicts.get id q.timers) h.0 in
    let (d, delta) = is_some-some (Dicts.get id q.pending) (sym (v.timed id) ∙ h.0) in
    let (q', run, same) =
      drain_each-Same ids (drained id d ts q) (drained-IsValid id d ts q v)
        (unfold drained in AreTimed-remove ids id q.timers h.1 h.2) in
    (
      q',
      drain_each-cons id ids q (drained id d ts q) (drain_one-drained id d ts q delta timer) ∙ run,
      record {
        valid = same.valid;
        owes = λ j base. same.owes j base ∙ owed-drained id j d base ts q delta;
      },
    )

-- Flushing what is due never fails on a valid queue: it leaves the queue valid, and what is owed to
-- each record as it was.
pub drain-Same :
    (now : ℕ) (q : Queue) → IsValid q → (q' : Queue) × (drain now q ≡ ok q') × Same q q'
unfolding drain
drain-Same now q v =
    drain_each-Same (due now q.debounce_window q.timers) q v
      (AreTimed-due now q.debounce_window q.timers v.distinct_timers)
