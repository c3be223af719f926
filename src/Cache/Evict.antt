-- ===== src/Cache/Evict.antt =====
-- Eviction: each strategy drops an entry, keeps the invariant and changes no entry that stays.
use mk_db.Base.{
  ℕ, zero, suc, ◌≡◌, ◌≢◌, ◌≤◌, ◌<◌, refl, sym, ◌∙◌, Text, List, [], ◌∷◌, some, true, false, Dict,
  contains, first_key, length, ltb, ◌==◌, ok, arith, text_key, get-remove, length-remove-le,
  length-remove-lt, contains-first_key, Bool-cases, inl, inr,
}
use mk_db.Base.Dicts
use mk_db.Base.Result.{Result}
use mk_db.Json.{Fields}
use mk_db.Cache.{
  Cache, evict_one, evict_each, evict_oldest, evict_rarest, evict_expired, evict_by, evict, shrink,
  least, expired_keys, CleanType, lru, lfu, timed, other,
}
use mk_db.Cache.Invariant.{IsValid, evict_one-IsValid}

-- `c'` is `c` with entries taken out.
pub record Within (c c' : Cache) : Type 0 where
  pub valid : IsValid c'
  pub smaller : length c'.store ≤ length c.store
  pub max_size : c'.max_size ≡ c.max_size
  pub clean_type : c'.clean_type ≡ c.clean_type
  pub ttl : c'.ttl ≡ c.ttl
  pub kept : (j : Text) (d : Fields) → Dicts.get j c'.store ≡ some d → Dicts.get j c.store ≡ some d

Within-refl : (c : Cache) → IsValid c → Within c c
Within-refl c v = record {
  valid = v;
  smaller = omega arith;
  max_size = refl;
  clean_type = refl;
  ttl = refl;
  kept = λ j d h. h;
}

Within-trans : {a b c : Cache} → Within a b → Within b c → Within a c
Within-trans p q = record {
  valid = q.valid;
  smaller = omega arith;
  max_size = q.max_size ∙ p.max_size;
  clean_type = q.clean_type ∙ p.clean_type;
  ttl = q.ttl ∙ p.ttl;
  kept = λ j d h. p.kept j d (q.kept j d h);
}

evict_one-Within : (k : Text) (c : Cache) → IsValid c → Within c (evict_one k c)
evict_one-Within k c v = record {
  valid = evict_one-IsValid k c v;
  smaller = unfold evict_one in length-remove-le k c.store;
  max_size = unfold evict_one in refl;
  clean_type = unfold evict_one in refl;
  ttl = unfold evict_one in refl;
  kept = λ j d h. unfold evict_one in ground (arith, get-remove k j c.store);
}

evict_each-Within : (ks : List Text) (c : Cache) → IsValid c → Within c (evict_each ks c)
unfolding evict_each
evict_each-Within [] c v = Within-refl c v
evict_each-Within (k ∷ ks) c v =
    let one = evict_one-Within k c v in
    Within-trans one (evict_each-Within ks (evict_one k c) one.valid)

-- What one round of eviction comes to.
abbrev Evicts : Cache → Result Cache → Type 0
Evicts c r = (c' : Cache) × (r ≡ ok c') × Within c c' × (length c'.store < length c.store)

evict_one-Evicts :
    (k : Text) (c : Cache) → IsValid c → contains k c.store ≡ true → Evicts c (ok (evict_one k c))
evict_one-Evicts k c v h =
    (evict_one k c, refl, evict_one-Within k c v, unfold evict_one in length-remove-lt k c.store h)

-- A dictionary that is not empty has a first key, and it is one of its keys.
first_key-of_length :
    {V : Type 0} (m : Dict Text V) → 0 < length m → (k : Text) × (first_key m ≡ some k)
first_key-of_length [] h = elim h [ ]
first_key-of_length ((k, v) ∷ m) h = (k, refl)

first_key-of_contains :
    {V : Type 0} (k : Text) (m : Dict Text V)
    → contains k m ≡ true
    → (j : Text) × (first_key m ≡ some j)
unfolding Dicts.get
first_key-of_contains k [] h = absurd (ground arith)
first_key-of_contains k ((j, v) ∷ m) h = (j, refl)

some_entry : (c : Cache) → 0 < length c.store → (k : Text) × (contains k c.store ≡ true)
some_entry c h = let (k, e) = first_key-of_length c.store h in (k, contains-first_key k c.store e)

evict_oldest-Evicts : (c : Cache) → IsValid c → 0 < length c.store → Evicts c (evict_oldest c)
unfolding evict_oldest
evict_oldest-Evicts c v h =
    let (k, present) = some_entry c h in
    let (j, first) = first_key-of_contains k c.access_log (v.logged k ∙ present) in
    rw (first, evict_oldest)
      (evict_one-Evicts j c v (sym (v.logged j) ∙ contains-first_key j c.access_log first))

least-cons :
    (j : Text) (i : ℕ) (m : Dict Text ℕ)
    → (k : Text) × (n : ℕ) × (least ((j, i) ∷ m) ≡ some (k, n)) × (contains k ((j, i) ∷ m) ≡ true)
unfolding least Dicts.get
least-cons j i [] = (j, i, refl, ground arith)
least-cons j i ((j', i') ∷ m) =
    let (k, n, e, present) = least-cons j' i' m in
    elim (Bool-cases (ltb n i)) [
      | inl less ↦ (k, n, ground arith, ground arith)
      | inr more ↦ (j, i, ground arith, ground arith)
    ]

least-of_contains :
    (k : Text) (m : Dict Text ℕ)
    → contains k m ≡ true
    → (j : Text) × (n : ℕ) × (least m ≡ some (j, n)) × (contains j m ≡ true)
least-of_contains k [] h = unfold Dicts.get in absurd (ground arith)
least-of_contains k ((j, i) ∷ m) h = least-cons j i m

evict_rarest-Evicts : (c : Cache) → IsValid c → 0 < length c.store → Evicts c (evict_rarest c)
unfolding evict_rarest
evict_rarest-Evicts c v h =
    let (k, present) = some_entry c h in
    let (j, n, rare, counted) = least-of_contains k c.freq (v.counted k ∙ present) in
    rw (rare, evict_rarest) (evict_one-Evicts j c v (sym (v.counted j) ∙ counted))

evict_expired-Evicts :
    (now : ℕ) (c : Cache) → IsValid c → c.max_size < length c.store → Evicts c (evict_expired now c)
unfolding evict_expired
evict_expired-Evicts now c v h =
    let c' = evict_each (expired_keys now c.ttl c.timestamps) c in
    let fewer : Within c c' = evict_each-Within (expired_keys now c.ttl c.timestamps) c v in
    elim (Bool-cases (ltb c'.max_size (length c'.store))) [
      | inl over ↦
          let (c'', e, within, less) = evict_oldest-Evicts c' fewer.valid (ground (arith, over)) in
          rw over (c'', e, Within-trans fewer within, omega (arith, fewer.smaller))
      | inr fits ↦ rw fits (c', refl, fewer, ground (arith, fits, fewer.max_size))
    ]

-- With a strategy that the code knows, a round on a cache over its limit raises nothing and makes
-- it smaller.
evict-Evicts :
    (now : ℕ) (c : Cache)
    → IsValid c
    → c.clean_type ≢ other
    → c.max_size < length c.store
    → Evicts c (evict now c)
unfolding evict
evict-Evicts now c v known h =
    let some_left : 0 < length c.store = omega arith in
    let left : (length c.store == 0) ≡ false = ground arith in rw left (by_type c.clean_type known)
  where
    by_type : (t : CleanType) → t ≢ other → Evicts c (evict_by t now c)
    by_type lru k = unfold evict_by in evict_oldest-Evicts c v (omega arith)
    by_type lfu k = unfold evict_by in evict_rarest-Evicts c v (omega arith)
    by_type timed k = unfold evict_by in evict_expired-Evicts now c v h
    by_type other k = absurd (k refl)

-- On a valid cache, with a strategy that the code knows, the loop of `set` ends without an
-- exception, in as many rounds as there are entries: the cache is valid and inside its limit
-- then, and only lost entries.
pub shrink-Within :
    (n : ℕ) (clock : ℕ → ℕ) (c : Cache)
    → IsValid c
    → c.clean_type ≢ other
    → length c.store ≤ n
    → (c' : Cache) × (shrink n clock c ≡ ok c') × Within c c' × (length c'.store ≤ c.max_size)
unfolding shrink
shrink-Within zero clock c v known h = (c, ground arith, Within-refl c v, omega arith)
shrink-Within (suc n) clock c v known h = elim (Bool-cases (ltb c.max_size (length c.store))) [
  | inl over ↦
      let (c', e, within, less) = evict-Evicts (clock n) c v known (ground (arith, over)) in
      let (c'', e', within', small) =
        shrink-Within n clock c' within.valid (rw within.clean_type known) (omega arith) in
      (c'', rw (over, e) e', Within-trans within within', omega (arith, within.max_size))
  | inr fits ↦ (c, rw fits, Within-refl c v, ground (arith, fits))
]
