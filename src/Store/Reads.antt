-- ===== src/Store/Reads.antt =====
-- What `read` gives after `write` and `delete`.
use mk_db.Base.{
  ℕ, ◌+◌, ◌≤◌, ◌≡◌, refl, Text, none, some, false, ok, arith, text_key, get-remove, Bool-cases, inl,
  inr,
}
use mk_db.Base.Dicts
use mk_db.Json.{Fields, end}
use mk_db.Codec.{Codec}
use mk_db.Cache
use mk_db.Cache.{Cache, apply_delta, is_expired, evict_one}
use mk_db.Cache.Invariant.{IsValid, evict_one-IsValid}
use mk_db.Cache.Bounds.{get_total}
use mk_db.Cache.Delta.{Merges, delta_entry, spelled, merge_by, apply_delta_total}
use mk_db.WriteQueue.{Queue, write_of, enqueue}
use mk_db.Index
use mk_db.Disk.{Disk, existing, existing_at, merge, read_at, read_storage, write_to_storage}
use mk_db.Disk.Writes.{IsStorable, read-write_to_storage}
use mk_db.Store.{Store, write, with_id, read, delete, handle_write}

Merges-fresh :
    (now t : ℕ) (merge : Fields → Fields → Fields) (k : Text) (d : Fields) (c c' : Cache)
    → Merges now merge k d c c'
    → t ≤ now + c.ttl
    → is_expired t k c' ≡ false
unfolding is_expired
Merges-fresh now t merge k d c c' m soon = ground (arith, m.stamp, m.ttl)

get-Merges :
    (now t later : ℕ) (merge : Fields → Fields → Fields) (k : Text) (d : Fields) (c c' : Cache)
    → Merges now merge k d c c'
    → t ≤ now + c.ttl
    → (c'' : Cache) × (Cache.get t later k c'
        ≡ ok (some (delta_entry merge d (Dicts.get k c.store)), c''))
get-Merges now t later merge k d c c' m soon =
    let fresh = Merges-fresh now t merge k d c c' m soon in
    let entry : Dicts.get k c'.store ≡ some (delta_entry merge d (Dicts.get k c.store)) =
      ground (arith, m.entries k) in
    let (c'', e, valid, rest) = get_total t later k c' m.valid in (c'', rw (fresh, entry) at e)

write-run :
    (now : ℕ) (id : Text) (delta : Fields) (s : Store) (cache' : Cache) (queue' : Queue)
    → apply_delta now id delta s.disk.nested s.cache ≡ ok cache'
    → enqueue now (write_of (some id) delta) s.queue ≡ ok queue'
    → write now id delta s ≡ ok (record s { cache = cache'; queue = queue' })
unfolding write
write-run now id delta s cache' queue' h k = rw (h, write, k) refl

read-hit :
    (c : Codec) (t later : ℕ) (clock : ℕ → ℕ) (id : Text) (d : Fields) (s : Store) (cache' : Cache)
    → Cache.get t later id s.cache ≡ ok (some d, cache')
    → read c t later clock id s ≡ ok (some (with_id id d), record s { cache = cache' })
unfolding read
read-hit c t later clock id d s cache' h = rw (h, read) refl

-- A `write` that the queue accepts, to a store with a valid cache, raises nothing where the delta
-- can be spelled out. A `read` no later than the time to live allows then gives the record as the
-- cache had it with the delta merged in; if the cache did not have it, the delta alone, whatever
-- stands on disk.
pub read-write :
    (c : Codec) (now t later : ℕ) (clock : ℕ → ℕ) (id : Text) (delta parts : Fields) (s : Store)
    (queue' : Queue)
    → IsValid s.cache
    → spelled s.disk.nested delta ≡ some parts
    → enqueue now (write_of (some id) delta) s.queue ≡ ok queue'
    → t ≤ now + s.cache.ttl
    → (s' s'' : Store) × (write now id delta s ≡ ok s')
      × (read c t later clock id s'
          ≡ ok (
            some (
                with_id id
                  (delta_entry (merge_by s.disk.nested) parts (Dicts.get id s.cache.store))),
            s'',
          ))
read-write c now t later clock id delta parts s queue' v e accepted soon =
    let (c₁, run, m) = apply_delta_total s.disk.nested now id delta parts s.cache v e in
    let (c₂, hit) = get-Merges now t later (merge_by s.disk.nested) id parts s.cache c₁ m soon in
    let s₁ : Store = record s { cache = c₁; queue = queue' } in
    (
      s₁,
      record s₁ { cache = c₂ },
      write-run now id delta s c₁ queue' run accepted,
      read-hit c t later clock id
          (delta_entry (merge_by s.disk.nested) parts (Dicts.get id s.cache.store)) s₁ c₂ hit,
    )

pub get-delete_self : (id : Text) (i : Index.Index) → Index.get id (Index.delete id i) ≡ none
unfolding Index.get Index.delete
get-delete_self id i = ground (arith, get-remove id id i.map)

read-miss :
    (c : Codec) (t later : ℕ) (clock : ℕ → ℕ) (id : Text) (s : Store) (cache' : Cache)
    → Cache.get t later id s.cache ≡ ok (none, cache')
    → read_storage c id s.disk ≡ ok none
    → read c t later clock id s ≡ ok (none, record s { cache = cache' })
unfolding read
read-miss c t later clock id s cache' h k = rw (h, read, k) refl

pub get-absent :
    (t later : ℕ) (k : Text) (c : Cache)
    → IsValid c
    → Dicts.get k c.store ≡ none
    → (c' : Cache) × (Cache.get t later k c ≡ ok (none, c'))
get-absent t later k c v absent =
    let (c', e, valid, rest) = get_total t later k c v in
    elim (Bool-cases (is_expired t k c)) [
      | inl old ↦ (c', rw old at e)
      | inr fresh ↦ (c', rw (fresh, absent) at e)
    ]

pub get-deleted : (id : Text) (c : Cache) → Dicts.get id (Cache.delete id c).store ≡ none
unfolding Cache.delete evict_one
get-deleted id c = ground (arith, get-remove id id c.store)

pub deleted-IsValid : (id : Text) (c : Cache) → IsValid c → IsValid (Cache.delete id c)
unfolding Cache.delete
deleted-IsValid id c v = evict_one-IsValid id c v

pub read_storage-absent :
    (c : Codec) (id : Text) (d : Disk) → Index.get id d.index ≡ none → read_storage c id d ≡ ok none
unfolding read_storage read_at
read_storage-absent c id d h = rw h refl

existing-absent :
    (c : Codec) (id : Text) (d : Disk) → Index.get id d.index ≡ none → existing c id d ≡ ok end
unfolding existing existing_at
existing-absent c id d h = rw h refl

index-delete : (id : Text) (s : Store) → Index.get id (delete id s).disk.index ≡ none
unfolding delete
index-delete id s = get-delete_self id s.disk.index

-- After `delete` in a store with a valid cache a `read` finds no record.
read-delete :
    (c : Codec) (t later : ℕ) (clock : ℕ → ℕ) (id : Text) (s : Store)
    → IsValid s.cache
    → (s' : Store) × (read c t later clock id (delete id s) ≡ ok (none, s'))
read-delete c t later clock id s v =
    let valid : IsValid (delete id s).cache = unfold delete in deleted-IsValid id s.cache v in
    let gone : Dicts.get id (delete id s).cache.store ≡ none =
      unfold delete in get-deleted id s.cache in
    let (cache', miss) = get-absent t later id (delete id s).cache valid gone in
    (
      record (delete id s) { cache = cache' },
      read-miss c t later clock id (delete id s) cache' miss
          (read_storage-absent c id (delete id s).disk (index-delete id s)),
    )

nested-delete : (id : Text) (s : Store) → (delete id s).disk.nested ≡ s.disk.nested
unfolding delete
nested-delete id s = refl

handle_write-run :
    (c : Codec) (id : Text) (delta : Fields) (d : Disk) (r : (Text × ℕ × ℕ) × Disk)
    → write_to_storage c id delta d ≡ ok r
    → handle_write c id delta d ≡ ok r.1
unfolding handle_write
handle_write-run c id delta d r h = rw (h, handle_write) refl

-- A delta that waited in the queue while its record was deleted brings the record back: `delete`
-- leaves the queue as it was, and once the worker handles the delta, which must be mergeable and
-- storable, storage holds a record under the id again, made of the delta alone.
pub handle_write-delete :
    (c : Codec) (id : Text) (delta full : Fields) (s : Store)
    → merge s.disk.nested delta end ≡ ok full
    → IsStorable c id full
    → ((delete id s).queue ≡ s.queue)
      × (d : Disk) × (handle_write c id delta (delete id s).disk ≡ ok d)
      × (read_storage c id d ≡ ok (some full))
handle_write-delete c id delta full s m h =
    let (r, run, found, again) =
      read-write_to_storage c id delta end full (delete id s).disk
        (existing-absent c id (delete id s).disk (index-delete id s)) (rw (nested-delete id s) m)
        h in
    ((unfold delete in refl), r.1, handle_write-run c id delta (delete id s).disk r run, found)
