-- ===== src/Cache/Bounds.antt =====
-- What `RamCache.set`, `get`, `delete` and `apply_delta` do to the size and to the invariant.
use mk_db.Base.{
  ℕ, ◌+◌, ◌≡◌, ◌≢◌, ◌≤◌, ◌⊎◌, refl, Text, [], ◌∷◌, none, some, false, Dict, put, contains, length,
  ok, arith, text_key, test, ◌&&◌, text_discrete, get-put, get-remove, length-put_present,
  Bool-cases, inl, inr, if◌then◌else◌,
}
use mk_db.Base.Dicts
use mk_db.Json.{Fields}
use mk_db.Cache
use mk_db.Cache.{
  Cache, CleanType, other, insert, touch, evict_one, is_expired, apply_flat, apply_nested,
}
use mk_db.Cache.Invariant.{
  IsValid, touched, touch-touched, touched-IsValid, rewritten-IsValid, insert-IsValid,
  evict_one-IsValid,
}
use mk_db.Cache.Evict.{shrink-Within}

pub length-put_absent :
    (k : Text) (d : Fields) (m : Dict Text Fields)
    → contains k m ≡ false
    → length (put k d m) ≡ length m + 1
unfolding put Dicts.get
length-put_absent k d [] h = omega arith
length-put_absent k d ((j, w) ∷ m) h = ground (arith, length-put_absent k d m)

-- What `set` comes to, in one piece.
set_outcome :
    (now : ℕ) (clock : ℕ → ℕ) (k : Text) (d : Fields) (c : Cache)
    → IsValid c
    → c.clean_type ≢ other
    → (c' : Cache) × (Cache.set now clock k d c ≡ ok c')
      × IsValid c'
      × (length c.store ≤ c.max_size → length c'.store ≤ c.max_size)
      × ((j : Text) (e : Fields)
          → Dicts.get j c'.store ≡ some e
          → Dicts.get j (put k d c.store) ≡ some e)
unfolding Cache.set
set_outcome now clock k d c v known = elim (Bool-cases (contains k c.store)) [
  | inl present ↦
      rw (present, touch-touched now k (put k d c.store) c v present)
        (
          touched now k (put k d c.store) c,
          refl,
          rewritten-IsValid now k d c v present,
          unfold touched in λ h. rw (length-put_present k d c.store present) h,
          unfold touched in λ j e g. g,
        )
  | inr absent ↦
      let (c', e, within, small) =
        shrink-Within (length (insert now k d c).store) clock (insert now k d c)
          (insert-IsValid now k d c v) (unfold insert in known) (omega arith) in
      rw absent (c', e, within.valid, unfold insert in (λ h. small), unfold insert in within.kept)
]

-- With a strategy that the code knows, `set` on a valid cache inside its limit raises nothing, and
-- leaves a valid cache inside the limit.
pub set_total :
    (now : ℕ) (clock : ℕ → ℕ) (k : Text) (d : Fields) (c : Cache)
    → IsValid c
    → c.clean_type ≢ other
    → length c.store ≤ c.max_size
    → (c' : Cache) × (Cache.set now clock k d c ≡ ok c')
      × IsValid c'
      × (length c'.store ≤ c.max_size)
set_total now clock k d c v known h =
    let (c', e, valid, small, kept) = set_outcome now clock k d c v known in (c', e, valid, small h)

-- What can be read after `set` is the new entry, or an entry that was there and is not changed.
get-set_sound :
    (now : ℕ) (clock : ℕ → ℕ) (k j : Text) (d e : Fields) (c c' : Cache)
    → IsValid c
    → c.clean_type ≢ other
    → Cache.set now clock k d c ≡ ok c'
    → Dicts.get j c'.store ≡ some e
    → ((k ≡ j) × (e ≡ d)) ⊎ (Dicts.get j c.store ≡ some e)
get-set_sound now clock k j d e c c' v known made g =
    let (x, same, valid, small, kept) = set_outcome now clock k d c v known in
    ground (arith, kept j e, get-put k j d c.store)

-- `get` on a valid cache raises nothing and keeps it valid. It answers with the entry if there is
-- one that is not expired, and drops an expired one.
pub get_total :
    (now later : ℕ) (k : Text) (c : Cache)
    → IsValid c
    → (c' : Cache) × (Cache.get now later k c
        ≡ ok (if is_expired now k c then none else Dicts.get k c.store, c'))
      × IsValid c'
      × ((j : Text)
          → Dicts.get j c'.store ≡ (
              if is_expired now k c && test (text_discrete k j) then none else Dicts.get j c.store))
unfolding Cache.get
get_total now later k c v = elim (Bool-cases (contains k c.store)) [
  | inl present ↦ elim (Bool-cases (is_expired now k c)) [
    | inl old ↦
        rw (present, old)
          (
            evict_one k c,
            refl,
            evict_one-IsValid k c v,
            λ j. unfold evict_one in ground (arith, get-remove k j c.store),
          )
    | inr fresh ↦
        rw (present, fresh, touch-touched later k c.store c v present)
          (
            touched later k c.store c,
            unfold touched in refl,
            touched-IsValid later k c.store c v present (λ j. refl) v.distinct,
            unfold touched in λ j. refl,
          )
  ]
  | inr absent ↦ rw absent (c, ground arith, v, λ j. ground arith)
]
