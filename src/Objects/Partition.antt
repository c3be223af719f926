-- ===== src/Objects/Partition.antt =====
-- `partition_object` over a whole dictionary of dotted keys.
use mk_db.Base.{
  ℕ, ◌≡◌, refl, sym, ◌∙◌, Text, List, [], ◌∷◌, some, text_discrete, arith, Option-cases, Bool-cases,
  inl, inr, false, has_char, split, ◌==◌,
}
use mk_db.Json.{Json, Fields, end, field}
use mk_db.Json.Entries.{get}
use mk_db.Objects.{set_path, partition_from, partition_entry, partition_object}
use mk_db.Objects.Paths.{get_path, Diverge, get_path-set_path_self, get_path-set_path-Diverge}

-- No piece of a split is missing: there is a first one.
split-eq-cons : (sep : ℕ) (s : Text) → (p : Text) × (ps : List Text) × (split sep s ≡ p ∷ ps)
unfolding split
split-eq-cons sep [] = ([], [], refl)
split-eq-cons sep (c ∷ s) = elim (Bool-cases (c == sep)) [
  | inl e ↦ ([], split sep s, rw e)
  | inr n ↦ let (p, ps, e) = split-eq-cons sep s in (c ∷ p, ps, rw (n, e))
]

-- A text without the separator is its only piece.
split-of_plain : (sep : ℕ) (s : Text) → has_char sep s ≡ false → split sep s ≡ s ∷ []
unfolding split has_char
split-of_plain sep [] h = refl
split-of_plain sep (c ∷ s) h = ground (arith, split-of_plain sep s)

-- One entry is a write at the path that its key spells, dotted or not.
pub partition_entry-eq-set_path :
    (sep : ℕ) (new : Fields) (k : Text) (v : Json)
    → partition_entry sep new k v ≡ set_path v (split sep k) new
unfolding partition_entry
partition_entry-eq-set_path sep new k v = elim (Bool-cases (has_char sep k)) [
  | inl dotted ↦ rw dotted
  | inr plain ↦ rw (plain, split-of_plain sep k plain) (unfold set_path in refl)
]

-- The path parts from every key of the dictionary.
abbrev pub PartsFrom : ℕ → List Text → Fields → Type 0
PartsFrom sep qs end = Unit {0}
PartsFrom sep qs (field k v d) = Diverge (split sep k) qs × PartsFrom sep qs d

-- No key of the dictionary leads on from another.
abbrev pub IsSeparated : ℕ → Fields → Type 0
IsSeparated sep end = Unit {0}
IsSeparated sep (field k v d) = PartsFrom sep (split sep k) d × IsSeparated sep d

partition_from-inv :
    (sep : ℕ) (new d r : Fields) (k : Text) (v : Json)
    → partition_from sep new (field k v d) ≡ some r
    → (new' : Fields) × (set_path v (split sep k) new ≡ some new')
      × (partition_from sep new' d ≡ some r)
unfolding partition_from
partition_from-inv sep new d r k v h = elim (Option-cases (partition_entry sep new k v)) [
  | inl bad ↦ absurd (ground arith)
  | inr (new', e) ↦ (new', sym (partition_entry-eq-set_path sep new k v) ∙ e, ground arith)
]

get_path-partition_from :
    (sep : ℕ) (qs : List Text) (new d r : Fields)
    → partition_from sep new d ≡ some r
    → PartsFrom sep qs d
    → get_path qs r ≡ get_path qs new
get_path-partition_from sep qs new end r h x = unfold partition_from in ground arith
get_path-partition_from sep qs new (field k v d) r h x =
    let (new', one, rest) = partition_from-inv sep new d r k v h in
    get_path-partition_from sep qs new' d r rest x.1
    ∙ get_path-set_path-Diverge v (split sep k) qs new new' one x.0

get_path-set_path-split :
    (sep : ℕ) (k : Text) (v : Json) (new new' : Fields)
    → set_path v (split sep k) new ≡ some new'
    → get_path (split sep k) new' ≡ some v
get_path-set_path-split sep k v new new' h =
    let (p, ps, e) = split-eq-cons sep k in
    rw e (get_path-set_path_self v p ps new new' (rw e at h))

get_path-partition_from_entry :
    (sep : ℕ) (k : Text) (v : Json) (new d r : Fields)
    → IsSeparated sep d
    → get k d ≡ some v
    → partition_from sep new d ≡ some r
    → get_path (split sep k) r ≡ some v
get_path-partition_from_entry sep k v new end r s g h = unfold get in absurd (ground arith)
get_path-partition_from_entry sep k v new (field j w d) r s g h =
    let (new', one, rest) = partition_from-inv sep new d r j w h in
    elim (text_discrete j k) [
      | yes same ↦ rw (← same) (
          get_path-partition_from sep (split sep j) new' d r rest s.0
          ∙ get_path-set_path-split sep j w new new' one
          ∙ (unfold get in ground arith))
      | no differ ↦
          get_path-partition_from_entry sep k v new' d r s.1 (unfold get in ground arith) rest
    ]

-- In a result of `partition_object` the path that a key spells leads to the key's value.
pub get_path-partition_object :
    (sep : ℕ) (d r : Fields) (k : Text) (v : Json)
    → IsSeparated sep d
    → get k d ≡ some v
    → partition_object sep d ≡ some r
    → get_path (split sep k) r ≡ some v
unfolding partition_object
get_path-partition_object sep d r k v = get_path-partition_from_entry sep k v end d r
