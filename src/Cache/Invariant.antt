-- ===== src/Cache/Invariant.antt =====
-- The four dictionaries of the cache hold the same keys, and every method keeps them so.
use mk_db.Base.{
  ℕ, ◌+◌, ◌≡◌, Text, [], ◌∷◌, ◌++◌, true, Dict, put, remove, contains, ok, arith, text_key,
  text_discrete, get-put, get-remove, get-append, HasDistinctKeys, put-HasDistinctKeys,
  remove-HasDistinctKeys, ite,
}
use mk_db.Base.Dicts
use mk_db.Json.{Fields}
use mk_db.Cache
use mk_db.Cache.{Cache, touch, insert, evict_one}

pub record IsValid (c : Cache) : Type 0 where
  pub logged : (k : Text) → contains k c.access_log ≡ contains k c.store
  pub counted : (k : Text) → contains k c.freq ≡ contains k c.store
  pub stamped : (k : Text) → contains k c.timestamps ≡ contains k c.store
  pub distinct : HasDistinctKeys c.store

pub evict_one-IsValid : (k : Text) (c : Cache) → IsValid c → IsValid (evict_one k c)
unfolding evict_one
evict_one-IsValid k c v = record {
  logged = λ j. ground (arith, v.logged j, get-remove k j c.access_log, get-remove k j c.store);
  counted = λ j. ground (arith, v.counted j, get-remove k j c.freq, get-remove k j c.store);
  stamped = λ j. ground (arith, v.stamped j, get-remove k j c.timestamps, get-remove k j c.store);
  distinct = remove-HasDistinctKeys k c.store v.distinct;
}

pub insert-IsValid :
    (now : ℕ) (k : Text) (d : Fields) (c : Cache) → IsValid c → IsValid (insert now k d c)
unfolding insert
insert-IsValid now k d c v = record {
  logged = λ j. ground (arith, v.logged j, get-put k j tt c.access_log, get-put k j d c.store);
  counted = λ j. ground (arith, v.counted j, get-put k j 1 c.freq, get-put k j d c.store);
  stamped = λ j. ground (arith, v.stamped j, get-put k j now c.timestamps, get-put k j d c.store);
  distinct = put-HasDistinctKeys k d c.store v.distinct;
}

-- The cache with another store, its entry `k` touched.
unfoldable pub touched : ℕ → Text → Dict Text Fields → Cache → Cache
touched now k entries c = record c {
  store = entries;
  access_log = remove k c.access_log ++ (k, tt) ∷ [];
  freq = put k (Cache.get_or (Dicts.get k c.freq) 0 + 1) c.freq;
  timestamps = put k now c.timestamps;
}

-- A touch of an entry that is present raises nothing.
pub touch-touched :
    (now : ℕ) (k : Text) (entries : Dict Text Fields) (c : Cache)
    → IsValid c
    → contains k c.store ≡ true
    → touch now k (record c { store = entries }) ≡ ok (touched now k entries c)
unfolding touch touched
touch-touched now k entries c v h = ground (arith, v.logged k)

contains-move :
    (k j : Text) (m : Dict Text (Unit {0}))
    → contains j (remove k m ++ (k, tt) ∷ []) ≡ ite (text_discrete k j) true (contains j m)
unfolding Dicts.get
contains-move k j m = ground (arith, get-append j (remove k m) ((k, tt) ∷ []), get-remove k j m)

pub touched-IsValid :
    (now : ℕ) (k : Text) (entries : Dict Text Fields) (c : Cache)
    → IsValid c
    → contains k c.store ≡ true
    → ((j : Text) → contains j entries ≡ contains j c.store)
    → HasDistinctKeys entries
    → IsValid (touched now k entries c)
unfolding touched
touched-IsValid now k entries c v h same d = record {
  logged = λ j. ground (arith, v.logged j, same j, contains-move k j c.access_log);
  counted = λ j. ground (arith, v.counted j, same j, get-put k j (count + 1) c.freq);
  stamped = λ j. ground (arith, v.stamped j, same j, get-put k j now c.timestamps);
  distinct = d;
}
  where
    count : ℕ
    count = Cache.get_or (Dicts.get k c.freq) 0

-- A write to a present entry, and a touch of it.
pub rewritten-IsValid :
    (now : ℕ) (k : Text) (d : Fields) (c : Cache)
    → IsValid c
    → contains k c.store ≡ true
    → IsValid (touched now k (put k d c.store) c)
rewritten-IsValid now k d c v h =
    touched-IsValid now k (put k d c.store) c v h (λ j. ground (arith, get-put k j d c.store))
      (put-HasDistinctKeys k d c.store v.distinct)
