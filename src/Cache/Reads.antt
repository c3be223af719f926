-- ===== src/Cache/Reads.antt =====
-- Under "lru" an entry that was just set is read back.
use mk_db.Base.{
  ℕ, zero, suc, ◌+◌, ◌≡◌, ◌≢◌, ◌≤◌, ◌<◌, refl, sym, ◌∙◌, Text, [], ◌∷◌, ◌++◌, none, some, true,
  false, Dict, remove, contains, length, ok, arith, text_key, get-put, get-remove, Bool-cases, inl,
  inr, ltb, put-absent, remove-append, other_key,
}
use mk_db.Base.Dicts
use mk_db.Base.Result.{Result}
use mk_db.Json.{Fields}
use mk_db.Cache
use mk_db.Cache.{
  Cache, CleanType, lru, other, insert, touch, evict_one, is_expired, shrink, evict, evict_by,
  evict_oldest,
}
use mk_db.Cache.Invariant.{IsValid, insert-IsValid, evict_one-IsValid}
use mk_db.Cache.Bounds.{get_total}

-- `k` is the most recently used key, stamped at `now`, with the entry `d`.
record IsNewest (now : ℕ) (k : Text) (d : Fields) (c : Cache) : Type 0 where
  valid : IsValid c
  entry : Dicts.get k c.store ≡ some d
  stamp : Dicts.get k c.timestamps ≡ some now
  older : Dict Text (Unit {0})
  last : c.access_log ≡ older ++ (k, tt) ∷ []
  once : Dicts.get k older ≡ none

abbrev Keeps : ℕ → Text → Fields → Cache → Result Cache → Type 0
Keeps now k d c r =
    (c' : Cache) × (r ≡ ok c')
    × IsNewest now k d c'
    × (c'.max_size ≡ c.max_size)
    × (c'.clean_type ≡ c.clean_type)
    × (c'.ttl ≡ c.ttl)

older_left :
    (p k : Text) (older log : Dict Text (Unit {0}))
    → log ≡ (p, tt) ∷ (older ++ (k, tt) ∷ [])
    → p ≢ k
    → remove p log ≡ remove p older ++ (k, tt) ∷ []
unfolding remove
older_left p k older log e ne = ground (arith, remove-append p older ((k, tt) ∷ []))

evict_one-IsNewest :
    (now : ℕ) (p k : Text) (d : Fields) (c : Cache) (older : Dict Text (Unit {0}))
    → IsNewest now k d c
    → c.access_log ≡ (p, tt) ∷ (older ++ (k, tt) ∷ [])
    → Dicts.get k ((p, tt) ∷ older) ≡ none
    → Keeps now k d c (ok (evict_one p c))
evict_one-IsNewest now p k d c older n last once =
    let ne : p ≢ k = unfold Dicts.get in ground arith in
    let gone : Dicts.get k older ≡ none = unfold Dicts.get in ground arith in
    (
      evict_one p c,
      refl,
      record {
        valid = evict_one-IsValid p c n.valid;
        entry = unfold evict_one in ground (arith, get-remove p k c.store);
        stamp = unfold evict_one in ground (arith, get-remove p k c.timestamps);
        older = remove p older;
        last = unfold evict_one in older_left p k older c.access_log last ne;
        once = ground (arith, get-remove p k older);
      },
      unfold evict_one in refl,
      unfold evict_one in refl,
      unfold evict_one in refl,
    )

-- Dropping the oldest of several entries leaves the newest where it is.
oldest_of :
    (now : ℕ) (k : Text) (d : Fields) (c : Cache) (older : Dict Text (Unit {0}))
    → IsNewest now k d c
    → 1 < length c.store
    → c.access_log ≡ older ++ (k, tt) ∷ []
    → Dicts.get k older ≡ none
    → Keeps now k d c (evict_oldest c)
unfolding evict_oldest
oldest_of now k d c [] n h last once =
    let (j, ne, present) = other_key k c.store n.valid.distinct h in
    let logged : contains j c.access_log ≡ true = n.valid.logged j ∙ present in
    let alone : contains j ((k, tt) ∷ []) ≡ true = rw last at logged in
    absurd (unfold Dicts.get in ground arith)
oldest_of now k d c ((p, u) ∷ older) n h last once =
    rw (last, evict_oldest) (evict_one-IsNewest now p k d c older n last once)

evict-IsNewest :
    (t now : ℕ) (k : Text) (d : Fields) (c : Cache)
    → IsNewest now k d c
    → c.clean_type ≡ lru
    → 1 < length c.store
    → Keeps now k d c (evict t c)
unfolding evict
evict-IsNewest t now k d c n l h =
    let by_age : evict t c ≡ evict_oldest c = ground arith in
    rw by_age (oldest_of now k d c n.older n h n.last n.once)

shrink-IsNewest :
    (m : ℕ) (clock : ℕ → ℕ) (now : ℕ) (k : Text) (d : Fields) (c c' : Cache)
    → IsNewest now k d c
    → c.clean_type ≡ lru
    → 0 < c.max_size
    → shrink m clock c ≡ ok c'
    → IsNewest now k d c' × (c'.ttl ≡ c.ttl)
unfolding shrink
shrink-IsNewest zero clock now k d c c' n l room h =
    let same : c ≡ c' = ground arith in rw (← same) (n, refl)
shrink-IsNewest (suc m) clock now k d c c' n l room h =
    elim (Bool-cases (ltb c.max_size (length c.store))) [
      | inl over ↦
          let (c₁, e, n₁, size, type, seconds) =
            evict-IsNewest (clock m) now k d c n l (ground (arith, over)) in
          let (n', same) =
            shrink-IsNewest m clock now k d c₁ c' n₁ (type ∙ l) (rw size room)
              (rw (over, e) at h) in
          (n', same ∙ seconds)
      | inr fits ↦ let same : c ≡ c' = ground (arith, fits) in rw (← same) (n, refl)
    ]

insert-IsNewest :
    (now : ℕ) (k : Text) (d : Fields) (c : Cache)
    → IsValid c
    → contains k c.store ≡ false
    → IsNewest now k d (insert now k d c)
insert-IsNewest now k d c v absent = record {
  valid = insert-IsValid now k d c v;
  entry = unfold insert in ground (arith, get-put k k d c.store);
  stamp = unfold insert in ground (arith, get-put k k now c.timestamps);
  older = c.access_log;
  last = unfold insert in put-absent k tt c.access_log (ground (arith, v.logged k));
  once = ground (arith, v.logged k);
}

set-absent :
    (now : ℕ) (clock : ℕ → ℕ) (k : Text) (d : Fields) (c : Cache)
    → contains k c.store ≡ false
    → Cache.set now clock k d c ≡ shrink (length (insert now k d c).store) clock (insert now k d c)
unfolding Cache.set
set-absent now clock k d c absent = rw absent refl

-- In a valid "lru" cache that may hold an entry, `set` of a new key is read back by a `get` that is
-- made no later than the time to live allows.
get-set_lru :
    (now : ℕ) (clock : ℕ → ℕ) (k : Text) (d : Fields) (c c' : Cache) (t later : ℕ)
    → IsValid c
    → c.clean_type ≡ lru
    → 0 < c.max_size
    → contains k c.store ≡ false
    → Cache.set now clock k d c ≡ ok c'
    → t ≤ now + c.ttl
    → (c'' : Cache) × (Cache.get t later k c' ≡ ok (some d, c''))
get-set_lru now clock k d c c' t later v l room absent made soon =
    let shrunk : shrink (length (insert now k d c).store) clock (insert now k d c) ≡ ok c' =
      sym (set-absent now clock k d c absent) ∙ made in
    let (n, seconds) =
      shrink-IsNewest (length (insert now k d c).store) clock now k d (insert now k d c) c'
        (insert-IsNewest now k d c v absent) (unfold insert in l) (unfold insert in room) shrunk in
    let lives : c'.ttl ≡ c.ttl = unfold insert in seconds in
    let fresh : is_expired t k c' ≡ false = unfold is_expired in ground (arith, n.stamp) in
    let (c'', e, valid, rest) = get_total t later k c' n.valid in (c'', rw (fresh, n.entry) at e)
