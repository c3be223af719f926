-- ===== src/Cache.antt =====
-- The record cache of one store, mkdb/db/cache/ram_cache.py: the class `RamCache`. Its methods hold
-- one lock from start to end, so each is one step on the state. `time.time()` is an argument; a
-- method that reads the clock twice takes two. The proofs are in the modules below.
pub mod Invariant
pub mod Reads
pub mod Evict
pub mod Bounds
pub mod Delta
use mk_db.Base.{
  ℕ, zero, suc, ◌+◌, ◌-◌, ◌≡◌, Text, List, [], ◌∷◌, ◌++◌, Option, none, some, Bool, true, false,
  Dict, put, remove, contains, first_key, length, ltb, ◌==◌, if◌then◌else◌, ok, raise, ◌>>=◌,
  or_raise, key_error, stop_iteration, value_error, type_error, out_of_fuel, text_key,
}
use mk_db.Base.Dicts
use mk_db.Base.Result.{Result}
use mk_db.Json.{Fields}
use mk_db.Json.Entries.{update}
use mk_db.Objects.{deep_update, partition_object}

-- The texts "lru", "lfu" and "ttl"; `other` is any text that `evict` does not compare with.
pub data CleanType : Type 0 where
  lru lfu timed other : CleanType

pub record Cache : Type 0 where
  pub max_size : ℕ
  -- In the unit of the clock; 0 means that nothing expires.
  pub ttl : ℕ
  pub clean_type : CleanType
  pub store : Dict Text Fields
  -- An `OrderedDict`, the least recently used key first.
  pub access_log : Dict Text (Unit {0})
  pub freq : Dict Text ℕ
  pub timestamps : Dict Text ℕ

unfoldable pub init : ℕ → ℕ → CleanType → Cache
init max_size seconds clean_type = record {
  max_size = max_size;
  ttl = seconds;
  clean_type = clean_type;
  store = [];
  access_log = [];
  freq = [];
  timestamps = [];
}

abbrev pub get_or {ℓ} : {A : Type ℓ} → Option A → A → A
get_or none a = a
get_or (some b) a = b

-- `OrderedDict.move_to_end`
unfoldable pub move_to_end : Text → Dict Text (Unit {0}) → Result (Dict Text (Unit {0}))
move_to_end k m = if contains k m then ok (remove k m ++ (k, tt) ∷ []) else raise key_error

unfoldable pub touch : ℕ → Text → Cache → Result Cache
unfolding move_to_end
touch now k c = do
  moved ← move_to_end k c.access_log
  ok (record c {
    access_log = moved;
    freq = put k (get_or (Dicts.get k c.freq) 0 + 1) c.freq;
    timestamps = put k now c.timestamps;
  })

unfoldable pub is_expired : ℕ → Text → Cache → Bool
is_expired now k c =
    if c.ttl == 0 then false else ltb c.ttl (now - get_or (Dicts.get k c.timestamps) 0)

unfoldable pub evict_one : Text → Cache → Cache
evict_one k c = record c {
  store = remove k c.store;
  access_log = remove k c.access_log;
  freq = remove k c.freq;
  timestamps = remove k c.timestamps;
}

-- `get`: the entry, or `none` on a miss.
unfoldable pub get : ℕ → ℕ → Text → Cache → Result (Option Fields × Cache)
unfolding is_expired evict_one touch
get now later k c =
    if contains k c.store
    then if is_expired now k c
      then ok (none, evict_one k c)
      else touch later k c >>= (λ c'. ok (Dicts.get k c'.store, c'))
    else ok (none, c)

-- `min(freq, key=...)`: the first key of the least count.
unfoldable pub least : Dict Text ℕ → Option (Text × ℕ)
least [] = none
least ((k, n) ∷ m) = elim (least m) [
  | none ↦ some (k, n)
  | some (j, i) ↦ if ltb i n then some (j, i) else some (k, n)
]

-- The keys whose stamp is older than the time to live.
unfoldable pub expired_keys : ℕ → ℕ → Dict Text ℕ → List Text
expired_keys now seconds [] = []
expired_keys now seconds ((k, t) ∷ m) =
    let rest = expired_keys now seconds m in
    if ltb 0 seconds then (if ltb seconds (now - t) then k ∷ rest else rest) else rest

unfoldable pub evict_each : List Text → Cache → Cache
evict_each [] c = c
evict_each (k ∷ ks) c = evict_each ks (evict_one k c)

-- Drops the entry that stands first in the access log; `next` raises if there is none.
unfoldable pub evict_oldest : Cache → Result Cache
unfolding evict_one
evict_oldest c = elim (first_key c.access_log) [
  | none ↦ raise stop_iteration
  | some k ↦ ok (evict_one k c)
]

unfoldable pub evict_rarest : Cache → Result Cache
unfolding evict_one least
evict_rarest c = elim (least c.freq) [ none ↦ raise value_error | some (k, _) ↦ ok (evict_one k c) ]

unfoldable pub evict_expired : ℕ → Cache → Result Cache
unfolding evict_each expired_keys evict_oldest
evict_expired now c =
    let c' = evict_each (expired_keys now c.ttl c.timestamps) c in
    if ltb c'.max_size (length c'.store) then evict_oldest c' else ok c'

unfoldable pub evict_by : CleanType → ℕ → Cache → Result Cache
unfolding evict_oldest evict_rarest evict_expired
evict_by lru now c = evict_oldest c
evict_by lfu now c = evict_rarest c
evict_by timed now c = evict_expired now c
evict_by other now c = ok c

unfoldable pub evict : ℕ → Cache → Result Cache
unfolding evict_by
evict now c = if length c.store == 0 then ok c else evict_by c.clean_type now c

-- `while len(self._store) > self.max_size: self.evict()`; `clock n` is the time with `n` rounds of
-- fuel left.
unfoldable pub shrink : ℕ → (ℕ → ℕ) → Cache → Result Cache
shrink zero clock c = if ltb c.max_size (length c.store) then raise out_of_fuel else ok c
shrink (suc n) clock c =
    let rest = evict (clock n) c >>= shrink n clock in
    if ltb c.max_size (length c.store) then rest else ok c

-- A new entry in the four dictionaries.
unfoldable pub insert : ℕ → Text → Fields → Cache → Cache
insert now k d c = record c {
  store = put k d c.store;
  access_log = put k tt c.access_log;
  freq = put k 1 c.freq;
  timestamps = put k now c.timestamps;
}

unfoldable pub set : ℕ → (ℕ → ℕ) → Text → Fields → Cache → Result Cache
unfolding insert touch
set now clock k d c =
    if contains k c.store
    then touch now k (record c { store = put k d c.store })
    else (let c' = insert now k d c in shrink (length c'.store) clock c')

unfoldable pub delete : Text → Cache → Cache
unfolding evict_one
delete k c = evict_one k c

unfoldable pub size : Cache → ℕ
size c = length c.store

-- `apply_delta`: merges into the entry, or makes the delta the entry. It evicts nothing.
unfoldable pub apply_flat : ℕ → Text → Fields → Cache → Result Cache
unfolding insert touch
apply_flat now k delta c = elim (Dicts.get k c.store) [
  | none ↦ ok (insert now k delta c)
  | some old ↦ touch now k (record c { store = put k (update old delta) c.store })
]

unfoldable pub apply_nested : ℕ → Text → Fields → Cache → Result Cache
unfolding insert touch
apply_nested now k delta c = do
  partitioned ← or_raise type_error (partition_object b'.' delta)
  elim (Dicts.get k c.store) [
    | none ↦ ok (insert now k partitioned c)
    | some old ↦ touch now k (record c { store = put k (deep_update old partitioned) c.store })
  ]

unfoldable pub apply_delta : ℕ → Text → Fields → Bool → Cache → Result Cache
unfolding apply_flat apply_nested
apply_delta now k delta nested c =
    if nested then apply_nested now k delta c else apply_flat now k delta c
