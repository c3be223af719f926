-- ===== src/Objects/Paths.antt =====
-- `partition_object`: what a dotted key writes, and what it leaves alone.
use mk_db.Base.{
  ◌≡◌, ◌≢◌, refl, Text, List, [], ◌∷◌, Option, none, some, text_discrete, arith, Option-cases, inl,
  inr, ◌⊎◌,
}
use mk_db.Json.{Json, obj, Fields, end}
use mk_db.Json.Entries.{get, put, get-put}
use mk_db.Objects.{set_path, as_dict, gate}

-- The value that a path leads to, through dictionaries.
unfoldable pub get_path : List Text → Fields → Option Json
get_path [] d = none
get_path (p ∷ []) d = get p d
get_path (p ∷ q ∷ ps) d = elim (as_dict (get p d)) [
  | none ↦ none
  | some below ↦ get_path (q ∷ ps) below
]

-- The paths part at some key: neither leads on from the other.
abbrev pub Diverge : List Text → List Text → Type 0
Diverge (p ∷ ps) (q ∷ qs) = (p ≢ q) ⊎ (Diverge ps qs)
Diverge _ _ = ⊥

-- A successful write below `p`: the dictionary found there, and what the write made of it.
pub set_path-inv :
    (v : Json) (p q : Text) (ps : List Text) (d d' : Fields)
    → set_path v (p ∷ q ∷ ps) d ≡ some d'
    → (below s : Fields) × (gate (get p d) ≡ some below)
      × (set_path v (q ∷ ps) below ≡ some s)
      × (d' ≡ put p (obj s) d)
unfolding set_path
set_path-inv v p q ps d d' h = elim (Option-cases (gate (get p d))) [
  | inl bad ↦ absurd (ground arith)
  | inr (below, found) ↦ elim (Option-cases (set_path v (q ∷ ps) below)) [
    | inl bad ↦ absurd (ground arith)
    | inr (s, made) ↦ (below, s, found, made, ground arith)
  ]
]

pub get_path-set_path_self :
    (v : Json) (p : Text) (ps : List Text) (d d' : Fields)
    → set_path v (p ∷ ps) d ≡ some d'
    → get_path (p ∷ ps) d' ≡ some v
unfolding get_path
get_path-set_path_self v p [] d d' h = unfold set_path in ground (arith, get-put p p v d)
get_path-set_path_self v p (q ∷ ps) d d' h =
    let (below, s, found, made, e) = set_path-inv v p q ps d d' h in
    ground (arith, get-put p p (obj s) d, get_path-set_path_self v q ps below s made)

get_path-end : (qs : List Text) → get_path qs end ≡ none
unfolding get_path get
get_path-end [] = refl
get_path-end (q ∷ []) = refl
get_path-end (q ∷ r ∷ qs) = refl

-- A path sees of a dictionary only the entry of its first key.
get_path-cong :
    (q : Text) (qs : List Text) (d d' : Fields)
    → get q d' ≡ get q d
    → get_path (q ∷ qs) d' ≡ get_path (q ∷ qs) d
unfolding get_path
get_path-cong q [] d d' h = h
get_path-cong q (r ∷ qs) d d' h = rw (h, get_path)

below_same :
    (q q' : Text) (qs : List Text) (p : Text) (d d' s below : Fields)
    → gate (get p d) ≡ some below
    → p ≡ q
    → get q d' ≡ some (obj s)
    → get_path (q' ∷ qs) s ≡ get_path (q' ∷ qs) below
    → get_path (q ∷ q' ∷ qs) d' ≡ get_path (q ∷ q' ∷ qs) d
unfolding get_path
below_same q q' qs p d d' s below found same now ih = ground (arith, get_path-end (q' ∷ qs))

-- A write that succeeds along one path changes nothing at a path that parts from it at some key.
pub get_path-set_path-Diverge :
    (v : Json) (ps qs : List Text) (d d' : Fields)
    → set_path v ps d ≡ some d'
    → Diverge ps qs
    → get_path qs d' ≡ get_path qs d
get_path-set_path-Diverge v [] qs d d' h x = elim x [ ]
get_path-set_path-Diverge v (p ∷ ps) [] d d' h x = elim x [ ]
get_path-set_path-Diverge v (p ∷ []) (q ∷ qs) d d' h (inl ne) =
    get_path-cong q qs d d' (unfold set_path in ground (arith, get-put p q v d))
get_path-set_path-Diverge v (p ∷ []) (q ∷ qs) d d' h (inr x) = elim x [ ]
get_path-set_path-Diverge v (p ∷ p' ∷ ps) (q ∷ qs) d d' h (inl ne) =
    let (below, s, found, made, e) = set_path-inv v p p' ps d d' h in
    get_path-cong q qs d d' (ground (arith, get-put p q (obj s) d))
get_path-set_path-Diverge v (p ∷ p' ∷ ps) (q ∷ []) d d' h (inr x) = elim x [ ]
get_path-set_path-Diverge v (p ∷ p' ∷ ps) (q ∷ q' ∷ qs) d d' h (inr x) =
    let (below, s, found, made, e) = set_path-inv v p p' ps d d' h in
    let ih : get_path (q' ∷ qs) s ≡ get_path (q' ∷ qs) below =
      get_path-set_path-Diverge v (p' ∷ ps) (q' ∷ qs) below s made x in
    elim (text_discrete p q) [
      | yes same ↦
          below_same q q' qs p d d' s below found same (ground (arith, get-put p q (obj s) d)) ih
      | no differ ↦ get_path-cong q (q' ∷ qs) d d' (ground (arith, get-put p q (obj s) d))
    ]
