-- ===== src/Query/Pages.antt =====
-- The order and the page of an answer, mkdb/db/query/query_engine.py: `query`. The ids of a set have no
-- order in Python; here they are in the order of the evaluation.
use mk_db.Base.{
  ℕ, suc, Text, codes, List, [], ◌∷◌, Option, none, some, Bool, true, false, Key, ok, raise, ◌>>=◌,
  attribute_error, query_syntax_error, if◌then◌else◌, length, ◌==◌, ◌||◌,
}
use mk_db.Base.Integers.{ℤ, pos, ◌+ℤ◌, slice, slice_from}
use mk_db.Base.Result.{Result}
use mk_db.Json.{Json, null, str, obj, Fields, end, field}
use mk_db.Json.Entries.{get, remove}
use mk_db.Numeric.{Number}
use mk_db.Query.Values.{Values, truthy}
use mk_db.Query.Scan.{Source, or_null}
use mk_db.Query.Eval.{Engine, eval_and}

-- The keys `(v is not None, v)` of two records compared: of two equal values neither is less.
unfoldable pub key_less : Values → Json → Json → Result Bool
key_less p null null = ok false
key_less p null w = ok true
key_less p v null = ok false
key_less p v w = if p.eq v w then ok false else p.lt v w

-- `reverse` exchanges the two sides, and keeps the order of equal keys.
abbrev pub less : Values → Bool → Json → Json → Result Bool
less p false v w = key_less p v w
less p true v w = key_less p w v

-- `results.sort`: a stable sort by the keys, which are read first.
unfoldable insert_by :
    (Json → Json → Result Bool) → Json × Text → List (Json × Text) → Result (List (Json × Text))
insert_by lt a [] = ok (a ∷ [])
insert_by lt a (b ∷ bs) = do
  after ← lt b.0 a.0
  rest ← elim after [ true ↦ insert_by lt a bs | false ↦ ok [] ]
  ok (if after then b ∷ rest else a ∷ b ∷ bs)

unfoldable sort_by : (Json → Json → Result Bool) → List (Json × Text) → Result (List (Json × Text))
unfolding insert_by
sort_by lt [] = ok []
sort_by lt (a ∷ rest_of) = do rest ← sort_by lt rest_of; insert_by lt a rest

-- `get_val` of the sort.
unfoldable sort_value : Source → Text → Text → Result Json
sort_value x f id = do
  rec ← x.read id
  elim rec [
    | none ↦ ok null
    | some end ↦ ok null
    | some (field k v d) ↦ ok (or_null (get f (field k v d)))
  ]

unfoldable sort_values_of : Source → Text → List Text → Result (List (Json × Text))
unfolding sort_value
sort_values_of x f [] = ok []
sort_values_of x f (id ∷ ids) = do
  v ← sort_value x f id
  rest ← sort_values_of x f ids
  ok ((v, id) ∷ rest)

abbrev ids_of : List (Json × Text) → List Text
ids_of [] = []
ids_of ((v, id) ∷ rest) = id ∷ ids_of rest

-- `sort_key.startswith("-")`
abbrev is_reverse : Text → Bool
is_reverse [] = false
is_reverse (c ∷ s) = c == b'-'

-- `sort_key.lstrip("+-")`
unfoldable sort_field : Text → Text
sort_field [] = []
sort_field (c ∷ s) = let rest = sort_field s in if c == b'+' || c == b'-' then rest else c ∷ s

-- The step "Sort" of `query`: an empty key, or an empty answer, is not sorted.
unfoldable sort_results : Source → Json → List Text → Result (List Text)
unfolding sort_values_of sort_by sort_field
sort_results x key [] = ok []
sort_results x (str (c ∷ s)) (id ∷ ids) = do
  pairs ← sort_values_of x (sort_field (c ∷ s)) (id ∷ ids)
  sorted ← sort_by (less x.values (is_reverse (c ∷ s))) pairs
  ok (ids_of sorted)
sort_results x key (id ∷ ids) = if truthy key then raise attribute_error else ok (id ∷ ids)

-- The step "Paginate". `to_int` is `int(v)`; a configured limit of 0 or less is none.
abbrev actual_limit : (Json → Result ℤ) → ℤ → Json → Result (Option ℤ)
actual_limit to_int (pos (suc n)) null = ok (some (pos (suc n)))
actual_limit to_int config null = ok none
actual_limit to_int config v = do k ← to_int v; ok (some k)

abbrev start_of : (Json → Result ℤ) → Json → Result ℤ
start_of to_int null = ok (pos 0)
start_of to_int v = to_int v

unfoldable pub page : ℤ → Option ℤ → List Text → List Text
page start (some k) xs = slice start (start +ℤ k) xs
page (pos (suc n)) none xs = slice_from (pos (suc n)) xs
page start none xs = xs

pub record Answer : Type 0 where
  pub ids : List Text
  pub count : ℕ
  pub total_matches : ℕ

-- The payload taken apart: the filter, and the values of `sort`, `limit` and `offset`. Without the key
-- `filter` the payload itself is the filter, without those three keys.
pub record Request : Type 0 where
  pub filter : Json
  pub sort : Json
  pub limit : Json
  pub offset : Json

unfoldable pub request_of : Fields → Request
unfolding get remove
request_of d = elim (get (codes "filter") d) [
  | some f ↦ record {
    filter = f;
    sort = or_null (get (codes "sort") d);
    limit = or_null (get (codes "limit") d);
    offset = or_null (get (codes "offset") d);
  }
  | none ↦ record {
    filter = obj (remove (codes "offset") (remove (codes "limit") (remove (codes "sort") d)));
    sort = or_null (get (codes "sort") d);
    limit = or_null (get (codes "limit") d);
    offset = or_null (get (codes "offset") d);
  }
]

module _ {V : Type 0} ⦃e : Key V⦄ (n : Number V) where
  -- The step "Gather candidates".
  unfoldable pub candidates : Source → Engine V → Json → Result (List Text)
  unfolding truthy
  candidates x g f = elim (truthy f) [ true ↦ eval_and n x g 0 f | false ↦ ok x.ids ]

  -- `query`
  unfoldable pub query : (Json → Result ℤ) → ℤ → Source → Engine V → Json → Result Answer
  unfolding request_of candidates sort_results page
  query to_int default_limit x g (obj d) = do
    found ← candidates x g (request_of d).filter
    sorted ← sort_results x (request_of d).sort found
    start ← start_of to_int (request_of d).offset
    limit ← actual_limit to_int default_limit (request_of d).limit
    ok (record {
      ids = page start limit sorted;
      count = length (page start limit sorted);
      total_matches = length found;
    })
  query to_int default_limit x g payload = raise query_syntax_error
