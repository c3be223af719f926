-- ===== src/Actions/Steps.antt =====
-- What an action works on, and how its steps follow one another, mkdb/server/coms/actions.py.
use mk_db.Base.{ℕ, Text, List, [], ◌∷◌, ◌++◌, Option, Bool}
use mk_db.Json.{Json, Fields}
use mk_db.Metrics.{Metrics}

-- An exception: its type, its text, and whether it is a `RuntimeError`.
pub record Exception : Type 0 where
  pub type_name : Text
  pub message : Text
  pub is_runtime : Bool

pub data Outcome (A : Type 0) : Type 0 where
  returned : A → Outcome A
  raised : Exception → Outcome A

-- What `query` of a store returns.
pub record QueryResult : Type 0 where
  pub ids : List Text
  pub total_matches : ℕ

-- The operations of a store. Each gives the store after it, also where it raises.
pub record StoreOps (S : Type 0) : Type 0 where
  pub read : Json → S → Outcome (Option Fields) × S
  pub write : Text → Fields → S → Outcome Unit × S
  pub delete : Json → S → Outcome Unit × S
  pub generate_id : S → Outcome Text × S
  pub query : Fields → S → Outcome QueryResult × S
  -- `len(store_obj.index_manager._map)`, or 0 without an index manager
  pub record_count : S → ℕ

-- What is published to the subscribers of a store.
pub record Event : Type 0 where
  pub store : Text
  pub record_id : Json
  pub op : Text

pub record Local (S : Type 0) : Type 0 where
  pub store : S
  pub metrics : Metrics
  pub events : List Event

abbrev pub Step : Type 0 → Type 0 → Type 0
Step S A = Local S → Outcome A × Local S

module _ {S : Type 0} where
  abbrev pub return : {A : Type 0} → A → Step S A
  return a w = (returned a, w)

  infixl 5 ◌>>=◌
  abbrev pub ◌>>=◌ : {A B : Type 0} → Step S A → (A → Step S B) → Step S B
  (m >>= f) w = let (r, w') = m w in elim r [ returned a ↦ f a w' | raised e ↦ (raised e, w') ]

  abbrev pub lift : {A : Type 0} → Outcome A → Step S A
  lift r w = (r, w)

  -- A call of the store.
  abbrev pub call : {A : Type 0} → (S → Outcome A × S) → Step S A
  call f w = let (r, s) = f w.store in (r, record w { store = s })

  -- `try` with its `except Exception`
  abbrev pub try_step : {A : Type 0} → Step S A → (Exception → Step S A) → Step S A
  try_step m f w = let (r, w') = m w in elim r [ returned a ↦ (returned a, w') | raised e ↦ f e w' ]

  abbrev pub count_request : (Metrics → Metrics) → Step S Unit
  count_request f w = (returned tt, record w { metrics = f w.metrics })

  abbrev pub publish : Event → Step S Unit
  publish event w = (returned tt, record w { events = w.events ++ (event ∷ []) })

-- `ActionResult`
pub record ActionResult : Type 0 where
  pub ok : Bool
  pub data_value : Json
  pub error : Text
  pub http_code : ℕ
