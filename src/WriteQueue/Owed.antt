-- ===== src/WriteQueue/Owed.antt =====
-- What the queue still owes the store, and that enqueuing adds to it and flushing does not change
-- it.
use mk_db.Base.{
  ℕ, ◌≤◌, ◌≡◌, refl, ◌∙◌, ite, Text, List, [], ◌∷◌, ◌++◌, Option, none, some, false, Dict, put,
  contains, text_key, text_discrete, get-put, length, length-put, length-put_present,
  put-HasDistinctKeys, ok, raise, runtime_error, ap, ◌≢◌, get-put_ne, Bool-cases, inl, inr, arith,
  or_else, HasDistinctKeys, leb, not, ◌&&◌,
}
use mk_db.Base.Dicts
use mk_db.Json.{Fields}
use mk_db.Json.Entries
use mk_db.Json.Entries.{update, get-update, update-HasDistinctKeys}
use mk_db.WriteQueue.{
  Task, Queue, flushed, direct, sentinel, write_of, coalesce, enqueue, flush_tasks, flush_all,
  or_same,
}

-- A record after the flushed writes to it, in the order of the queue.
unfoldable pub replay : Text → List Task → Fields → Fields
replay j [] base = base
replay j (flushed id d ts ∷ q) base = replay j q (ite (text_discrete id j) (update base d) base)
replay j (direct op d ∷ q) base = replay j q base
replay j (sentinel ∷ q) base = replay j q base

abbrev settle : Option Fields → Fields → Fields
settle none base = base
settle (some d) base = update base d

-- The record once everything that was enqueued for it is applied to what the store has.
unfoldable pub owed : Text → Queue → Fields → Fields
owed j q base = settle (Dicts.get j q.pending) (replay j q.queue base)

-- Pending deltas and timers are for the same ids, not more than allowed, and every delta is a `dict`.
pub record IsValid (q : Queue) : Type 0 where
  pub distinct : HasDistinctKeys q.pending
  pub distinct_timers : HasDistinctKeys q.timers
  pub timed : (j : Text) → contains j q.timers ≡ contains j q.pending
  pub dicts : (j : Text) (d : Fields) → Dicts.get j q.pending ≡ some d → Entries.HasDistinctKeys d
  pub bounded : length q.pending ≤ q.max_pending
  pub few_dead : length q.dead_letter ≤ 1000

pub replay-append :
    (j : Text) (q r : List Task) (base : Fields)
    → replay j (q ++ r) base ≡ replay j r (replay j q base)
unfolding replay
replay-append j [] r base = refl
replay-append j (flushed id d ts ∷ q) r base = replay-append j q r _
replay-append j (direct op d ∷ q) r base = replay-append j q r base
replay-append j (sentinel ∷ q) r base = replay-append j q r base

coalesce-HasDistinctKeys :
    (o : Option Fields) (d : Fields)
    → ((p : Fields) → o ≡ some p → Entries.HasDistinctKeys p)
    → Entries.HasDistinctKeys d
    → Entries.HasDistinctKeys (coalesce o d)
unfolding coalesce
coalesce-HasDistinctKeys none d h k = k
coalesce-HasDistinctKeys (some p) d h k = update-HasDistinctKeys p d (h p refl)

get-settle-coalesce :
    (o : Option Fields) (d base : Fields) (f : Text)
    → ((p : Fields) → o ≡ some p → Entries.HasDistinctKeys p)
    → Entries.HasDistinctKeys d
    → Entries.get f (update base (coalesce o d))
      ≡ or_else (Entries.get f d) (Entries.get f (settle o base))
unfolding coalesce
get-settle-coalesce none d base f h k = get-update f base d k
get-settle-coalesce (some p) d base f h k = ground (
  arith,
  get-update f base (update p d),
  get-update f p d,
  get-update f base p,
  h p refl,
  update-HasDistinctKeys p d,
)

-- The state after a write was accepted.
accepted : ℕ → Text → Fields → Queue → Queue
accepted now id d q = record q {
  pending = put id (coalesce (Dicts.get id q.pending) d) q.pending;
  timers = put id now q.timers;
}

enqueue-accepted :
    (now : ℕ) (id : Text) (d : Fields) (q : Queue)
    → (not (contains id q.pending) && leb q.max_pending (length q.pending)) ≡ false
    → enqueue now (write_of (some id) d) q ≡ ok (accepted now id d q)
unfolding enqueue accepted
enqueue-accepted now id d q h = rw h refl

accepted-IsValid :
    (now : ℕ) (id : Text) (d : Fields) (q : Queue)
    → IsValid q
    → Entries.HasDistinctKeys d
    → (not (contains id q.pending) && leb q.max_pending (length q.pending)) ≡ false
    → IsValid (accepted now id d q)
unfolding accepted
accepted-IsValid now id d q v k room = record {
  distinct = put-HasDistinctKeys id _ q.pending v.distinct;
  distinct_timers = put-HasDistinctKeys id _ q.timers v.distinct_timers;
  timed = λ j. ground (
    arith,
    get-put id j (coalesce (Dicts.get id q.pending) d) q.pending,
    get-put id j now q.timers,
    v.timed j,
  );
  dicts = λ j p found. of_put j p found;
  bounded = ground (
    arith,
    length-put id (coalesce (Dicts.get id q.pending) d) q.pending,
    length-put_present id (coalesce (Dicts.get id q.pending) d) q.pending,
    v.bounded,
  );
  few_dead = v.few_dead;
}
  where
    new : Fields
    new = coalesce (Dicts.get id q.pending) d

    of_put :
        (j : Text) (p : Fields)
        → Dicts.get j (put id new q.pending) ≡ some p
        → Entries.HasDistinctKeys p
    of_put j p found = elim (text_discrete id j) [
      | yes same ↦
          let here : new ≡ p = ground (arith, get-put id j new q.pending) in
          rw (← here) (coalesce-HasDistinctKeys (Dicts.get id q.pending) d (v.dicts id) k)
      | no other ↦ v.dicts j p (ground (arith, get-put id j new q.pending))
    ]

get-owed-accepted :
    (now : ℕ) (id j f : Text) (d base : Fields) (q : Queue)
    → IsValid q
    → Entries.HasDistinctKeys d
    → Entries.get f (owed j (accepted now id d q) base)
      ≡ ite
          (text_discrete id j)
          (or_else (Entries.get f d) (Entries.get f (owed j q base)))
          (Entries.get f (owed j q base))
unfolding accepted owed
get-owed-accepted now id j f d base q v k = elim (text_discrete id j) [
  | yes same ↦ ground (
    arith,
    get-put id j (coalesce (Dicts.get id q.pending) d) q.pending,
    get-settle-coalesce (Dicts.get id q.pending) d (replay j q.queue base) f (v.dicts id) k,
  )
  | no other ↦ ground (arith, get-put id j (coalesce (Dicts.get id q.pending) d) q.pending)
]

-- While a valid queue has room, or a write to the record is pending, a write is accepted: the
-- queue stays valid, the fields of the delta are owed to the record over those that were owed
-- before, and every other field of every record is owed as before.
pub get-owed-enqueue :
    (now : ℕ) (id j f : Text) (d base : Fields) (q : Queue)
    → IsValid q
    → Entries.HasDistinctKeys d
    → (not (contains id q.pending) && leb q.max_pending (length q.pending)) ≡ false
    → (q' : Queue) × (enqueue now (write_of (some id) d) q ≡ ok q')
      × IsValid q'
      × (Entries.get f (owed j q' base)
          ≡ ite
              (text_discrete id j)
              (or_else (Entries.get f d) (Entries.get f (owed j q base)))
              (Entries.get f (owed j q base)))
get-owed-enqueue now id j f d base q v k room = (
  accepted now id d q,
  enqueue-accepted now id d q room,
  accepted-IsValid now id d q v k room,
  get-owed-accepted now id j f d base q v k,
)

replay-flush_tasks_absent :
    (now : ℕ) (j : Text) (p : Dict Text Fields) (base : Fields)
    → Dicts.get j p ≡ none
    → replay j (flush_tasks now p) base ≡ base
unfolding replay flush_tasks Dicts.get
replay-flush_tasks_absent now j [] base h = refl
replay-flush_tasks_absent now j ((id, d) ∷ p) base h =
    ground (arith, replay-flush_tasks_absent now j p base)

replay-flush_tasks :
    (now : ℕ) (j : Text) (p : Dict Text Fields) (base : Fields)
    → HasDistinctKeys p
    → replay j (flush_tasks now p) base ≡ settle (Dicts.get j p) base
unfolding replay flush_tasks Dicts.get
replay-flush_tasks now j [] base h = refl
replay-flush_tasks now j ((id, d) ∷ p) base h = ground (
  arith,
  replay-flush_tasks now j p base h.1,
  replay-flush_tasks_absent now j p (update base d),
  h.0,
)

-- Flushing a valid queue moves every pending delta to the tasks: nothing is pending after it, the
-- queue is valid, and what is owed to each record is the same.
pub owed-flush_all :
    (now : ℕ) (j : Text) (base : Fields) (q : Queue)
    → IsValid q
    → ((flush_all now q).pending ≡ [])
      × IsValid (flush_all now q)
      × (owed j (flush_all now q) base ≡ owed j q base)
unfolding flush_all owed Dicts.get replay
owed-flush_all now j base q v = (
  refl,
  record {
    distinct = tt;
    distinct_timers = tt;
    timed = λ i. refl;
    dicts = λ i d found. absurd (ground arith);
    bounded = omega arith;
    few_dead = v.few_dead;
  },
  replay-append j q.queue (flush_tasks now q.pending) base
      ∙ replay-flush_tasks now j q.pending (replay j q.queue base) v.distinct,
)

owed-accepted_other :
    (now : ℕ) (id j : Text) (d base : Fields) (q : Queue)
    → id ≢ j
    → owed j (accepted now id d q) base ≡ owed j q base
unfolding accepted owed
owed-accepted_other now id j d base q other =
    ap (λ o. settle o (replay j q.queue base))
      (get-put_ne id j (coalesce (Dicts.get id q.pending) d) q.pending other)

-- A call of `enqueue` of a write, refused or not, keeps the queue valid, and owes another record what it
-- owed.
pub enqueue-Keeps :
    (now : ℕ) (id : Text) (d : Fields) (q : Queue)
    → IsValid q
    → Entries.HasDistinctKeys d
    → IsValid (or_same q (enqueue now (write_of (some id) d) q))
      × ((j : Text) (base : Fields)
          → id ≢ j
          → owed j (or_same q (enqueue now (write_of (some id) d) q)) base ≡ owed j q base)
enqueue-Keeps now id d q v k =
    elim (Bool-cases (not (contains id q.pending) && leb q.max_pending (length q.pending))) [
      | inl full ↦
          let refused : enqueue now (write_of (some id) d) q ≡ raise runtime_error =
            unfold enqueue in rw full refl in
          rw refused (v, λ j base other. refl)
      | inr room ↦ rw (enqueue-accepted now id d q room) (
        accepted-IsValid now id d q v k room,
        λ j base other. owed-accepted_other now id j d base q other,
      )
    ]
