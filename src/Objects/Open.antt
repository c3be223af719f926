-- ===== src/Objects/Open.antt =====
-- Where `partition_object` can write: no value but a dictionary stands on the way.
use mk_db.Base.{
  ℕ, ◌≡◌, refl, sym, Text, List, [], ◌∷◌, Option, none, some, text_discrete, arith, inl, inr, split,
  Option-cases,
}
use mk_db.Json.{Json, obj, Fields, end, field}
use mk_db.Json.Entries.{get, put, get-put}
use mk_db.Objects.{set_path, gate, partition_from, partition_object}
use mk_db.Objects.Paths.{Diverge, get_path, set_path-inv}
use mk_db.Objects.Partition.{
  PartsFrom, IsSeparated, partition_entry-eq-set_path, get_path-partition_object,
}

abbrev pub Holds : Option Fields → (Fields → Type 0) → Type 0
Holds none P = ⊥
Holds (some d) P = P d

abbrev IsOpen : List Text → Fields → Type 0
IsOpen (p ∷ q ∷ ps) d = Holds (gate (get p d)) (IsOpen (q ∷ ps))
IsOpen _ d = Unit {0}

IsOpen-end : (ps : List Text) → IsOpen ps end
unfolding get
IsOpen-end [] = tt
IsOpen-end (p ∷ []) = tt
IsOpen-end (p ∷ q ∷ ps) = IsOpen-end (q ∷ ps)

-- An open path can be written.
set_path_total :
    (v : Json) (ps : List Text) (d : Fields)
    → IsOpen ps d
    → (d' : Fields) × (set_path v ps d ≡ some d')
unfolding set_path
set_path_total v [] d h = (d, refl)
set_path_total v (p ∷ []) d h = (put p v d, refl)
set_path_total v (p ∷ q ∷ ps) d h = elim (Option-cases (gate (get p d))) [
  | inl bad ↦ absurd (rw bad at h)
  | inr (below, found) ↦
      let (s, made) = set_path_total v (q ∷ ps) below (rw found at h) in
      (put p (obj s) d, ground arith)
]

-- A write keeps every path open that parts from its own.
IsOpen-set_path :
    (v : Json) (ps qs : List Text) (d d' : Fields)
    → set_path v ps d ≡ some d'
    → Diverge ps qs
    → IsOpen qs d
    → IsOpen qs d'
IsOpen-set_path v [] qs d d' h x o = elim x [ ]
IsOpen-set_path v (p ∷ ps) [] d d' h x o = elim x [ ]
IsOpen-set_path v (p ∷ ps) (q ∷ []) d d' h x o = tt
IsOpen-set_path v (p ∷ []) (q ∷ r ∷ qs) d d' h (inr x) o = elim x [ ]
IsOpen-set_path v (p ∷ []) (q ∷ r ∷ qs) d d' h (inl ne) o =
    let same : get q d' ≡ get q d = unfold set_path in ground (arith, get-put p q v d) in rw same o
IsOpen-set_path v (p ∷ p' ∷ ps) (q ∷ r ∷ qs) d d' h (inl ne) o =
    let (below, s, found, made, e) = set_path-inv v p p' ps d d' h in
    let same : get q d' ≡ get q d = ground (arith, get-put p q (obj s) d) in rw same o
IsOpen-set_path v (p ∷ p' ∷ ps) (q ∷ r ∷ qs) d d' h (inr x) o =
    let (below, s, found, made, e) = set_path-inv v p p' ps d d' h in
    elim (text_discrete p q) [
      | yes same ↦
          let now : get q d' ≡ some (obj s) = ground (arith, get-put p q (obj s) d) in
          let was : gate (get q d) ≡ some below = rw (← same) found in
          rw now (IsOpen-set_path v (p' ∷ ps) (r ∷ qs) below s made x (rw was at o))
      | no differ ↦
          let same : get q d' ≡ get q d = ground (arith, get-put p q (obj s) d) in rw same o
    ]

Diverge-symm : (ps qs : List Text) → Diverge ps qs → Diverge qs ps
Diverge-symm (p ∷ ps) (q ∷ qs) (inl ne) = inl (λ e. ne (sym e))
Diverge-symm (p ∷ ps) (q ∷ qs) (inr x) = inr (Diverge-symm ps qs x)
Diverge-symm (p ∷ ps) [] x = elim x [ ]
Diverge-symm [] qs x = elim x [ ]

-- Every key of the dictionary can be written.
abbrev AreOpen : ℕ → Fields → Fields → Type 0
AreOpen sep new end = Unit {0}
AreOpen sep new (field k v d) = IsOpen (split sep k) new × AreOpen sep new d

AreOpen-end : (sep : ℕ) (d : Fields) → AreOpen sep end d
AreOpen-end sep end = tt
AreOpen-end sep (field k v d) = (IsOpen-end (split sep k), AreOpen-end sep d)

AreOpen-set_path :
    (sep : ℕ) (v : Json) (ps : List Text) (d new new' : Fields)
    → set_path v ps new ≡ some new'
    → PartsFrom sep ps d
    → AreOpen sep new d
    → AreOpen sep new' d
AreOpen-set_path sep v ps end new new' h x o = tt
AreOpen-set_path sep v ps (field k w d) new new' h x o = (
  IsOpen-set_path v ps (split sep k) new new' h (Diverge-symm _ _ x.0) o.0,
  AreOpen-set_path sep v ps d new new' h x.1 o.1,
)

partition_from_total :
    (sep : ℕ) (d new : Fields)
    → IsSeparated sep d
    → AreOpen sep new d
    → (r : Fields) × (partition_from sep new d ≡ some r)
unfolding partition_from
partition_from_total sep end new s o = (new, refl)
partition_from_total sep (field k v d) new s o =
    let (new', one) = set_path_total v (split sep k) new o.0 in
    let (r, rest) =
      partition_from_total sep d new' s.1
        (AreOpen-set_path sep v (split sep k) d new new' one s.0 o.1) in
    (r, ground (arith, partition_entry-eq-set_path sep new k v))

-- If no key leads on from another, `partition_object` raises nothing, and the path that a key
-- spells leads to that key's value in the result.
pub partition_object_total :
    (sep : ℕ) (d : Fields) (k : Text) (v : Json)
    → IsSeparated sep d
    → get k d ≡ some v
    → (r : Fields) × (partition_object sep d ≡ some r) × (get_path (split sep k) r ≡ some v)
unfolding partition_object
partition_object_total sep d k v s g =
    let (r, e) = partition_from_total sep d end s (AreOpen-end sep d) in
    (r, e, get_path-partition_object sep d r k v s g e)
