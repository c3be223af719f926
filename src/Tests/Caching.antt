-- ===== src/Tests/Caching.antt =====
-- Tests of the record cache: a full cache of one entry.
use mk_db.Base.{
  ℕ, ◌+◌, ◌≤◌, ◌≡◌, ◌≢◌, refl, [], ◌∷◌, some, false, codes, text_key, text_discrete, contains,
  arith, length, ok,
}
use mk_db.Base.Dicts
use mk_db.Json.{end}
use mk_db.Cache
use mk_db.Cache.{Cache, CleanType, lru, lfu, timed, other, is_expired, shrink, apply_delta}
use mk_db.Cache.Invariant.{IsValid}
use mk_db.Cache.Bounds.{set_total}
use mk_db.Tests.Samples.{sample}

-- One entry, in a cache for `max_size` of them.
abbrev one_entry : CleanType → Cache
one_entry clean_type = record {
  max_size = 1;
  ttl = 60;
  clean_type = clean_type;
  store = (codes "a", sample) ∷ [];
  access_log = (codes "a", tt) ∷ [];
  freq = (codes "a", 1) ∷ [];
  timestamps = (codes "a", 3) ∷ [];
}

one_entry-IsValid : (t : CleanType) → IsValid (one_entry t)
unfolding Dicts.get
one_entry-IsValid t = record {
  logged = λ k. ground arith;
  counted = λ k. ground arith;
  stamped = λ k. ground arith;
  distinct = (refl, tt);
}

abbrev clock : ℕ → ℕ
clock n = 9 + n

lru-ne-other : lru ≢ other
lru-ne-other h = cc

set_total_example :
    (c' : Cache) × (Cache.set 9 clock (codes "b") end (one_entry lru) ≡ ok c')
    × IsValid c'
    × (length c'.store ≤ 1)
set_total_example =
    set_total 9 clock (codes "b") end (one_entry lru) (one_entry-IsValid lru) lru-ne-other
      (omega arith)

-- The cache after "b" took the place of "a".
abbrev after_set : Cache
after_set = record {
  max_size = 1;
  ttl = 60;
  clean_type = lru;
  store = (codes "b", end) ∷ [];
  access_log = (codes "b", tt) ∷ [];
  freq = (codes "b", 1) ∷ [];
  timestamps = (codes "b", 9) ∷ [];
}

set_b : Cache.set 9 clock (codes "b") end (one_entry lru) ≡ ok after_set
unfolding Cache.set shrink Cache.evict Cache.evict_by Cache.evict_oldest Cache.evict_one
    Cache.insert Dicts.get Dicts.put Dicts.remove text_discrete
set_b = refl

b_found : Dicts.get (codes "b") after_set.store ≡ some end
unfolding Dicts.get text_discrete
b_found = refl

b_absent : contains (codes "b") (one_entry lru).store ≡ false
unfolding Dicts.get text_discrete
b_absent = refl
