-- ===== src/Workers/LocalCache/Bounds.antt =====
-- The worker's cache holds the same keys in its three dictionaries, and never more entries than its
-- size.
use mk_db.Base.{
  ℕ, ◌-◌, ◌≤◌, ◌<◌, ◌≡◌, ◌≢◌, refl, sym, ◌∙◌, Text, [], ◌∷◌, ◌++◌, Option, none, some, true, false,
  Dict, put, remove, contains, first_key, length, ltb, leb, if◌then◌else◌, ok, arith, text_key,
  text_discrete, get-put, get-remove, get-append, length-put, length-put_present, length-remove-lt,
  length-remove-le, contains-first_key, Bool-cases, inl, inr, ite,
}
use mk_db.Base.Dicts
use mk_db.Json.{Fields, end}
use mk_db.Cache.{move_to_end}
use mk_db.Workers.LocalCache
use mk_db.Workers.LocalCache.{LocalCache, init, evict_one, pop_oldest, make_room, touch, del}

pub record IsValid (c : LocalCache) : Type 0 where
  pub positive : 1 ≤ c.max
  pub ordered : (k : Text) → contains k c.order ≡ contains k c.entries
  pub stamped : (k : Text) → contains k c.ts ≡ contains k c.entries
  pub bounded : length c.entries ≤ c.max

init-IsValid : (max_size ttl : ℕ) → IsValid (init max_size ttl)
unfolding init Dicts.get
init-IsValid max_size ttl = record {
  positive = ground arith;
  ordered = λ k. refl;
  stamped = λ k. refl;
  bounded = omega arith;
}

pub evict_one-IsValid : (k : Text) (c : LocalCache) → IsValid c → IsValid (evict_one k c)
unfolding evict_one
evict_one-IsValid k c v = record {
  positive = v.positive;
  ordered = λ j. ground (arith, v.ordered j, get-remove k j c.order, get-remove k j c.entries);
  stamped = λ j. ground (arith, v.stamped j, get-remove k j c.ts, get-remove k j c.entries);
  bounded = omega (arith, length-remove-le k c.entries, v.bounded);
}

contains-move :
    (k j : Text) (m : Dict Text (Unit {0}))
    → contains j (remove k m ++ (k, tt) ∷ []) ≡ ite (text_discrete k j) true (contains j m)
unfolding Dicts.get
contains-move k j m = ground (arith, get-append j (remove k m) ((k, tt) ∷ []), get-remove k j m)

-- The entry moved to the end of the order.
unfoldable pub moved : Text → LocalCache → LocalCache
moved k c = record c { order = remove k c.order ++ (k, tt) ∷ [] }

moved-IsValid :
    (k : Text) (c : LocalCache) → IsValid c → contains k c.entries ≡ true → IsValid (moved k c)
unfolding moved
moved-IsValid k c v h = record {
  positive = v.positive;
  ordered = λ j. ground (arith, v.ordered j, contains-move k j c.order);
  stamped = v.stamped;
  bounded = v.bounded;
}

-- Every entry of the one cache stands in the other.
abbrev pub IsWithin : LocalCache → LocalCache → Type 0
IsWithin c' c =
    (j : Text) (d : Fields) → Dicts.get j c'.entries ≡ some d → Dicts.get j c.entries ≡ some d

evict_one-IsWithin : (k : Text) (c : LocalCache) → IsWithin (evict_one k c) c
unfolding evict_one
evict_one-IsWithin k c j d h = ground (arith, get-remove k j c.entries)

-- What `get` comes to in a valid cache.
pub record Got (k : Text) (c : LocalCache) (o : Option Fields) (c' : LocalCache) : Type 0 where
  pub valid : IsValid c'
  pub within : IsWithin c' c
  pub found : (d : Fields) → o ≡ some d → Dicts.get k c.entries ≡ some d

abbrev stamp_or_zero : Option ℕ → ℕ
stamp_or_zero none = 0
stamp_or_zero (some t) = t

get-run :
    (now : ℕ) (k : Text) (c : LocalCache)
    → IsValid c
    → LocalCache.get now k c
      ≡ ok (
          if contains k c.entries
          then (if ltb c.ttl (now - stamp_or_zero (Dicts.get k c.ts))
              then (none, evict_one k c)
              else (Dicts.get k c.entries, moved k c))
          else (none, c))
unfolding LocalCache.get move_to_end moved
get-run now k c v = ground (arith, v.ordered k, v.stamped k)

-- `get` of a valid cache raises nothing.
pub get_total :
    (now : ℕ) (k : Text) (c : LocalCache)
    → IsValid c
    → (o : Option Fields) × (c' : LocalCache) × (LocalCache.get now k c ≡ ok (o, c')) × Got k c o c'
get_total now k c v = elim (Bool-cases (contains k c.entries)) [
  | inr absent ↦ (
    none,
    c,
    get-run now k c v ∙ rw absent refl,
    record { valid = v; within = λ j d h. h; found = λ d h. absurd (cc) },
  )
  | inl present ↦ elim (Bool-cases (ltb c.ttl (now - stamp_or_zero (Dicts.get k c.ts)))) [
    | inl old ↦ (
      none,
      evict_one k c,
      get-run now k c v ∙ rw (present, old) refl,
      record {
        valid = evict_one-IsValid k c v;
        within = evict_one-IsWithin k c;
        found = λ d h. absurd (cc);
      },
    )
    | inr fresh ↦ (
      Dicts.get k c.entries,
      moved k c,
      get-run now k c v ∙ rw (present, fresh) refl,
      record {
        valid = moved-IsValid k c v present;
        within = unfold moved in λ j d h. h;
        found = λ d h. h;
      },
    )
  ]
]

length-put_same :
    (k : Text) (v w : Fields) (m : Dict Text Fields) → length (put k v m) ≡ length (put k w m)
unfolding put
length-put_same k v w [] = refl
length-put_same k v w ((j, u) ∷ m) = ground (arith, length-put_same k v w m)

-- What `set` comes to.
pub record Stored (k : Text) (v : Fields) (c c' : LocalCache) : Type 0 where
  pub valid : IsValid c'
  pub here : Dicts.get k c'.entries ≡ some v
  pub others :
      (j : Text) (d : Fields)
      → k ≢ j
      → Dicts.get j c'.entries ≡ some d
      → Dicts.get j c.entries ≡ some d

-- The last step of `set`, on a cache that has room or the entry.
unfoldable placed : ℕ → Text → Fields → LocalCache → LocalCache
placed now k d c = record c { entries = put k d c.entries; ts = put k now c.ts }

-- The cache before the last step of `set`.
record IsReady (k : Text) (c c' : LocalCache) : Type 0 where
  positive : 1 ≤ c'.max
  ordered : (j : Text) → contains j c'.order ≡ ite (text_discrete k j) true (contains j c'.entries)
  stamped : (j : Text) → contains j c'.ts ≡ contains j c'.entries
  room : length (put k end c'.entries) ≤ c'.max
  within : IsWithin c' c

placed-Stored :
    (now : ℕ) (k : Text) (d : Fields) (c c' : LocalCache)
    → IsReady k c c'
    → Stored k d c (placed now k d c')
unfolding placed
placed-Stored now k d c c' r = record {
  valid = record {
    positive = r.positive;
    ordered = λ j. ground (arith, r.ordered j, get-put k j d c'.entries);
    stamped = λ j. ground (arith, r.stamped j, get-put k j d c'.entries, get-put k j now c'.ts);
    bounded = rw (length-put_same k d end c'.entries) (r.room);
  };
  here = ground (arith, get-put k k d c'.entries);
  others = λ j e ne h. r.within j e (ground (arith, get-put k j d c'.entries));
}

moved-IsReady :
    (k : Text) (c : LocalCache) → IsValid c → contains k c.entries ≡ true → IsReady k c (moved k c)
unfolding moved
moved-IsReady k c v h = record {
  positive = v.positive;
  ordered = λ j. ground (arith, v.ordered j, contains-move k j c.order);
  stamped = v.stamped;
  room = omega (arith, length-put_present k end c.entries h, v.bounded);
  within = λ j d e. e;
}

-- A new key at the end of the order.
unfoldable queued : Text → LocalCache → LocalCache
queued k c = record c { order = put k tt c.order }

queued-IsReady :
    (k : Text) (c c' : LocalCache)
    → IsValid c'
    → IsWithin c' c
    → length c'.entries < c'.max
    → IsReady k c (queued k c')
unfolding queued
queued-IsReady k c c' v w h = record {
  positive = v.positive;
  ordered = λ j. ground (arith, v.ordered j, get-put k j tt c'.order);
  stamped = v.stamped;
  room = omega (arith, length-put k end c'.entries, h);
  within = w;
}

-- A cache with entries has a first key in its order, and `popitem` takes that entry.
first_of :
    {V : Type 0} (m : Dict Text V) (k : Text)
    → contains k m ≡ true
    → (j : Text) × (first_key m ≡ some j)
unfolding Dicts.get
first_of [] k h = ground arith
first_of ((j, v) ∷ m) k h = (j, refl)

some_key : {V : Type 0} (m : Dict Text V) → 1 ≤ length m → (k : Text) × (contains k m ≡ true)
unfolding Dicts.get
some_key [] h = absurd (omega arith)
some_key ((k, v) ∷ m) h = (k, ground arith)

pop_oldest-run :
    (c : LocalCache) (k : Text)
    → IsValid c
    → first_key c.order ≡ some k
    → (pop_oldest c ≡ ok (evict_one k c)) × (contains k c.entries ≡ true)
unfolding pop_oldest evict_one
pop_oldest-run c k v h =
    let present = contains-first_key k c.order h in
    let held : contains k c.entries ≡ true = sym (v.ordered k) ∙ present in
    let stamp : contains k c.ts ≡ true = v.stamped k ∙ held in (rw (h, held, stamp) refl, held)

evicted_lt :
    (j : Text) (c : LocalCache)
    → IsValid c
    → contains j c.entries ≡ true
    → length (evict_one j c).entries < (evict_one j c).max
unfolding evict_one
evicted_lt j c v p = omega (arith, length-remove-lt j c.entries p, v.bounded)

make_room-full :
    (k : Text) (c : LocalCache)
    → IsValid c
    → leb c.max (length c.entries) ≡ true
    → (c' : LocalCache) × (make_room k c ≡ ok c') × IsReady k c c'
unfolding make_room queued
make_room-full k c v h =
    let (i, held) = some_key c.entries (ground (arith, v.positive)) in
    let (oldest, first) = first_of c.order i (v.ordered i ∙ held) in
    let (run, present) = pop_oldest-run c oldest v first in
    (
      queued k (evict_one oldest c),
      rw (h, run) refl,
      queued-IsReady k c (evict_one oldest c) (evict_one-IsValid oldest c v)
          (evict_one-IsWithin oldest c) (evicted_lt oldest c v present),
    )

make_room-free :
    (k : Text) (c : LocalCache)
    → IsValid c
    → leb c.max (length c.entries) ≡ false
    → (c' : LocalCache) × (make_room k c ≡ ok c') × IsReady k c c'
unfolding make_room queued
make_room-free k c v h = (queued k c, rw h refl, queued-IsReady k c c v (λ j d e. e) (ground arith))

ready :
    (k : Text) (c : LocalCache)
    → IsValid c
    → (c' : LocalCache) × ((if contains k c.entries then touch k c else make_room k c) ≡ ok c')
      × IsReady k c c'
unfolding touch move_to_end moved
ready k c v = elim (Bool-cases (contains k c.entries)) [
  | inl present ↦ (moved k c, rw (present, v.ordered k ∙ present) refl, moved-IsReady k c v present)
  | inr absent ↦ elim (Bool-cases (leb c.max (length c.entries))) [
    | inl full ↦ let (c', run, r) = make_room-full k c v full in (c', rw absent run, r)
    | inr free ↦ let (c', run, r) = make_room-free k c v free in (c', rw absent run, r)
  ]
]

-- In a valid cache `set` raises nothing. The cache after it is valid, so it has no more entries than
-- its size; it holds the new entry, and under any other key nothing that it did not hold before.
pub set_total :
    (now : ℕ) (k : Text) (d : Fields) (c : LocalCache)
    → IsValid c
    → (c' : LocalCache) × (LocalCache.set now k d c ≡ ok c') × Stored k d c c'
unfolding LocalCache.set placed
set_total now k d c v =
    let (c', run, r) = ready k c v in (placed now k d c', rw run refl, placed-Stored now k d c c' r)
