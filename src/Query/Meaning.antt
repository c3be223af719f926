-- ===== src/Query/Meaning.antt =====
-- What a filter means: a test of each record by itself. The evaluation of
-- mkdb/db/query/query_engine.py without an index is compared with it.
use mk_db.Base.{
  ℕ, suc, ◌≤◌, ◌≡◌, Text, text_discrete, codes, Bool, true, false, ◌&&◌, ◌||◌, ok, raise, All, none,
  some, Option,
}
use mk_db.Base.Result.{Result}
use mk_db.Json.{Json, null, arr, obj, Items, nil, cons, Fields, end, field}
use mk_db.Query.Scan.{Source, by_name, Op, eq, in_op, op_of, record_passes}

abbrev pub yields : Result Bool → Bool
yields (ok b) = b
yields (raise _) = false

-- The operators of a field, all of them.
abbrev pub holds_ops : Source → Text → Text → Fields → Bool
holds_ops x f id end = true
holds_ops x f id (field k v rest) =
    let others = holds_ops x f id rest in
    elim (op_of k) [ none ↦ others | some op ↦ yields (record_passes x f op v id) && others ]

abbrev pub holds_field : Source → Text → Text → Json → Bool
holds_field x f id null = false
holds_field x f id (arr vs) = yields (record_passes x f in_op (arr vs) id)
holds_field x f id (obj d) = holds_ops x f id d
holds_field x f id v = yields (record_passes x f eq v id)

-- The record passes the filter.
unfoldable mutual
  pub holds_and : Source → Text → Json → Bool
  holds_and x id (arr vs) = holds_all x id vs
  holds_and x id (obj d) = holds_clauses x id d
  holds_and x id v = false

  pub holds_or : Source → Text → Json → Bool
  holds_or x id (arr vs) = holds_any x id vs
  holds_or x id v = false

  pub holds_all : Source → Text → Items → Bool
  holds_all x id nil = true
  holds_all x id (cons v vs) = holds_and x id v && holds_all x id vs

  pub holds_any : Source → Text → Items → Bool
  holds_any x id nil = false
  holds_any x id (cons v vs) = holds_and x id v || holds_any x id vs

  pub holds_clauses : Source → Text → Fields → Bool
  holds_clauses x id end = true
  holds_clauses x id (field f v d) =
      by_name (text_discrete f (codes "$or")) (text_discrete f (codes "$and")) (holds_or x id v)
        (holds_and x id v) (holds_field x f id v)
      && holds_clauses x id d

-- The test of every record comes to a Boolean.
abbrev pub Runs : Source → Text → Op → Json → Type 0
Runs x f op v = All (λ id. (b : Bool) × (record_passes x f op v id ≡ ok b)) x.ids

abbrev pub RunsIfKnown : Source → Text → Json → Option Op → Type 0
RunsIfKnown x f v none = Unit
RunsIfKnown x f v (some op) = Runs x f op v

abbrev pub RunsOps : Source → Text → Fields → Type 0
RunsOps x f end = Unit
RunsOps x f (field k v rest) = RunsIfKnown x f v (op_of k) × RunsOps x f rest

abbrev pub RunsField : Source → Text → Json → Type 0
RunsField x f null = Unit
RunsField x f (arr vs) = Runs x f in_op (arr vs)
RunsField x f (obj d) = RunsOps x f d
RunsField x f v = Runs x f eq v

-- The filter lies within the depth, `$or` has lists, and no test raises.
unfoldable mutual
  pub FitsAnd : Source → ℕ → Json → Type 0
  FitsAnd x depth (arr vs) = (depth ≤ x.recursion_limit) × FitsItems x (suc depth) vs
  FitsAnd x depth (obj d) = (depth ≤ x.recursion_limit) × FitsClauses x (suc depth) d
  FitsAnd x depth v = depth ≤ x.recursion_limit

  pub FitsOr : Source → ℕ → Json → Type 0
  FitsOr x depth (arr vs) = (depth ≤ x.recursion_limit) × FitsItems x (suc depth) vs
  FitsOr x depth v = ⊥

  pub FitsItems : Source → ℕ → Items → Type 0
  FitsItems x depth nil = Unit
  FitsItems x depth (cons v vs) = FitsAnd x depth v × FitsItems x depth vs

  pub FitsClauses : Source → ℕ → Fields → Type 0
  FitsClauses x depth end = Unit
  FitsClauses x depth (field f v d) =
      by_name (text_discrete f (codes "$or")) (text_discrete f (codes "$and")) (FitsOr x depth v)
        (FitsAnd x depth v) (RunsField x f v)
      × FitsClauses x depth d
