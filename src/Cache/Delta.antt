-- ===== src/Cache/Delta.antt =====
-- `RamCache.apply_delta`: what it merges, and that it makes no room.
use mk_db.Base.{
  ℕ, ◌+◌, ◌≡◌, refl, Text, Option, none, some, Bool, true, false, put, contains, length, ok, arith,
  text_key, text_discrete, get-put, Option-cases, inl, inr, if◌then◌else◌, ite, length-put_present,
}
use mk_db.Base.Dicts
use mk_db.Json.{Fields}
use mk_db.Json.Entries.{update}
use mk_db.Objects.{deep_update, partition_object}
use mk_db.Cache.{Cache, insert, apply_flat, apply_nested, apply_delta}
use mk_db.Cache.Invariant.{IsValid, touched, touch-touched, rewritten-IsValid, insert-IsValid}
use mk_db.Cache.Bounds.{length-put_absent}

-- The entry that a delta makes: merged into the old one, or the delta alone.
abbrev pub delta_entry : (Fields → Fields → Fields) → Fields → Option Fields → Fields
delta_entry merge delta none = delta
delta_entry merge delta (some old) = merge old delta

-- The cache after a delta, one entry written or one added, and stamped.
pub record Merges (now : ℕ) (merge : Fields → Fields → Fields) (k : Text) (delta : Fields)
    (c c' : Cache) : Type 0 where
  pub valid : IsValid c'
  pub entries :
      (j : Text)
      → Dicts.get j c'.store
        ≡ ite
            (text_discrete k j)
            (some (delta_entry merge delta (Dicts.get k c.store)))
            (Dicts.get j c.store)
  pub stamp : Dicts.get k c'.timestamps ≡ some now
  pub ttl : c'.ttl ≡ c.ttl
  pub size : length c'.store ≡ length c.store + (if contains k c.store then 0 else 1)

insert-Merges :
    (merge : Fields → Fields → Fields) (now : ℕ) (k : Text) (delta : Fields) (c : Cache)
    → IsValid c
    → Dicts.get k c.store ≡ none
    → Merges now merge k delta c (insert now k delta c)
insert-Merges merge now k delta c v new = record {
  valid = insert-IsValid now k delta c v;
  entries = λ j. unfold insert in ground (arith, get-put k j delta c.store);
  stamp = unfold insert in ground (arith, get-put k k now c.timestamps);
  ttl = unfold insert in refl;
  size = unfold insert in ground (arith, length-put_absent k delta c.store);
}

touched-Merges :
    (merge : Fields → Fields → Fields) (now : ℕ) (k : Text) (delta old : Fields) (c : Cache)
    → IsValid c
    → Dicts.get k c.store ≡ some old
    → Merges now merge k delta c (touched now k (put k (merge old delta) c.store) c)
touched-Merges merge now k delta old c v found = record {
  valid = rewritten-IsValid now k (merge old delta) c v (ground arith);
  entries = λ j. unfold touched in ground (arith, get-put k j (merge old delta) c.store);
  stamp = unfold touched in ground (arith, get-put k k now c.timestamps);
  ttl = unfold touched in refl;
  size = unfold touched in ground (arith, length-put_present k (merge old delta) c.store);
}

apply_flat_lem :
    (now : ℕ) (k : Text) (delta : Fields) (c : Cache)
    → IsValid c
    → (c' : Cache) × (apply_flat now k delta c ≡ ok c') × Merges now update k delta c c'
unfolding apply_flat
apply_flat_lem now k delta c v = elim (Option-cases (Dicts.get k c.store)) [
  | inl new ↦
      rw (new, apply_flat) (insert now k delta c, refl, insert-Merges update now k delta c v new)
  | inr (old, found) ↦
      let entries = put k (update old delta) c.store in
      rw (found, apply_flat, touch-touched now k entries c v (ground arith))
        (touched now k entries c, refl, touched-Merges update now k delta old c v found)
]

apply_nested_lem :
    (now : ℕ) (k : Text) (delta parts : Fields) (c : Cache)
    → IsValid c
    → partition_object b'.' delta ≡ some parts
    → (c' : Cache) × (apply_nested now k delta c ≡ ok c') × Merges now deep_update k parts c c'
unfolding apply_nested
apply_nested_lem now k delta parts c v e = elim (Option-cases (Dicts.get k c.store)) [
  | inl new ↦
      rw (e, new, apply_nested)
        (insert now k parts c, refl, insert-Merges deep_update now k parts c v new)
  | inr (old, found) ↦
      let entries = put k (deep_update old parts) c.store in
      rw (e, found, apply_nested, touch-touched now k entries c v (ground arith))
        (touched now k entries c, refl, touched-Merges deep_update now k parts old c v found)
]

-- The delta as it is merged: its dotted keys spelled out if nesting is on, which may fail.
abbrev pub spelled : Bool → Fields → Option Fields
spelled nested delta = if nested then partition_object b'.' delta else some delta

abbrev pub merge_by : Bool → Fields → Fields → Fields
merge_by nested = if nested then deep_update else update

-- Where the delta's dotted keys can be spelled out, or nesting is off, `apply_delta` on a valid
-- cache raises nothing. The entry of the id becomes the old one with the delta merged in, or the
-- delta alone if there was none; no other entry changes, none is evicted, and the cache stays
-- valid.
pub apply_delta_total :
    (nested : Bool) (now : ℕ) (k : Text) (delta parts : Fields) (c : Cache)
    → IsValid c
    → spelled nested delta ≡ some parts
    → (c' : Cache) × (apply_delta now k delta nested c ≡ ok c')
      × Merges now (merge_by nested) k parts c c'
unfolding apply_delta
apply_delta_total true now k delta parts c v e = apply_nested_lem now k delta parts c v e
apply_delta_total false now k delta parts c v e =
    let same : delta ≡ parts = ground arith in rw (← same) (apply_flat_lem now k delta c v)
