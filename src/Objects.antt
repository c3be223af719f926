-- ===== src/Objects.antt =====
-- The functions on nested dictionaries of mkdb/objects/__init__.py: `deep_update`,
-- `partition_object` and `compact_object`. Each returns the new dictionary; what they write into a
-- dictionary that the caller still holds is not modelled.
pub mod Update
pub mod Paths
pub mod Partition
pub mod Open
use mathlib.Core.Option
use mk_db.Base.{ℕ, Text, List, [], ◌∷◌, ◌++◌, Option, none, some, split, has_char, if◌then◌else◌}
use mk_db.Json.{Json, null, obj, Fields, end, field}
use mk_db.Json.Entries.{get, put, remove, update}

-- `isinstance(v, dict)`, with the dictionary.
abbrev pub as_dict : Option Json → Option Fields
as_dict (some (obj d)) = some d
as_dict _ = none

-- `deep_update(m, u)`: a null removes the key, two dictionaries merge, all else is written.
unfoldable mutual
  unfolding get put remove

  pub deep_update : Fields → Fields → Fields
  deep_update m end = m
  deep_update m (field k v u) = deep_update (deep_write m k v) u

  -- The body of its loop, for the entry `k: v`.
  pub deep_write : Fields → Text → Json → Fields
  deep_write m k null = remove k m
  deep_write m k (obj u) = elim (as_dict (get k m)) [
    | none ↦ put k (obj u) m
    | some old ↦ put k (obj (deep_update old u)) m
  ]
  deep_write m k v = put k v m

-- The dictionary below an entry, made if the entry is absent. Any other value is a `TypeError`.
abbrev pub gate : Option Json → Option Fields
gate none = some end
gate (some (obj d)) = some d
gate (some _) = none

-- The inner loop of `partition_object`: writes `v` at the path. `none` is a `TypeError`.
unfoldable pub set_path : Json → List Text → Fields → Option Fields
set_path v [] d = some d
set_path v (p ∷ []) d = some (put p v d)
set_path v (p ∷ q ∷ ps) d = elim (gate (get p d)) [
  | none ↦ none
  | some below ↦ Option.map (λ s. put p (obj s) d) (set_path v (q ∷ ps) below)
]

unfoldable pub partition_entry : ℕ → Fields → Text → Json → Option Fields
partition_entry sep new k v =
    if has_char sep k then set_path v (split sep k) new else some (put k v new)

unfoldable pub partition_from : ℕ → Fields → Fields → Option Fields
partition_from sep new end = some new
partition_from sep new (field k v d) = elim (partition_entry sep new k v) [
  | none ↦ none
  | some new' ↦ partition_from sep new' d
]

unfoldable pub partition_object : ℕ → Fields → Option Fields
unfolding partition_from partition_entry set_path split has_char get put
partition_object sep d = partition_from sep end d

-- The key of an entry below `prev`. The separator is a dot, whatever the caller passes.
abbrev pub dotted : Option Text → Text → Text
dotted none k = k
dotted (some p) k = p ++ (b'.' ∷ k)

unfoldable compact_from : Option Text → Fields → Fields → Fields
compact_from prev new end = new
compact_from prev new (field k (obj d) rest) =
    compact_from prev (update new (compact_from (some (dotted prev k)) end d)) rest
compact_from prev new (field k v rest) = compact_from prev (put (dotted prev k) v new) rest

unfoldable compact_object : Fields → Option Text → Fields
unfolding compact_from update put
compact_object d prev = compact_from prev end d
