-- ===== src/Query/Values.antt =====
-- Values of a query and of a record as Python compares them, for mkdb/db/query/query_engine.py.
use mk_db.Base.{
  zero, suc, ◌||◌, Text, List, [], ◌∷◌, Bool, true, false, not, ◌==◌, ◌&&◌, ok, raise, ◌>>=◌,
  type_error, attribute_error,
}
use mk_db.Base.Result.{Result}
use mk_db.Json.{Json, null, bool, int, float, str, arr, obj, nil, cons, end, field, Items}
use mk_db.Json.Entries.{contains}

-- The comparisons of two values. An order that Python does not have between the two is a `TypeError`.
pub record Values : Type 0 where
  pub eq : Json → Json → Bool
  pub gt : Json → Json → Result Bool
  pub ge : Json → Json → Result Bool
  pub lt : Json → Json → Result Bool
  pub le : Json → Json → Result Bool

-- `bool(v)`; the float's pattern is that of 0.0 or of -0.0.
unfoldable pub truthy : Json → Bool
truthy null = false
truthy (bool b) = b
truthy (int true n) = true
truthy (int false zero) = false
truthy (int false (suc n)) = true
truthy (float bits) = not (bits == 0 || bits == 9223372036854775808)
truthy (str []) = false
truthy (str (c ∷ s)) = true
truthy (arr nil) = false
truthy (arr (cons v vs)) = true
truthy (obj end) = false
truthy (obj (field k v d)) = true

unfoldable pub is_prefix : Text → Text → Bool
is_prefix [] t = true
is_prefix (c ∷ s) [] = false
is_prefix (c ∷ s) (d ∷ t) = c == d && is_prefix s t

-- `s in t` of two texts
unfoldable pub is_substring : Text → Text → Bool
unfolding is_prefix
is_substring s [] = is_prefix s []
is_substring s (d ∷ t) = is_prefix s (d ∷ t) || is_substring s t

-- `v in [...]`
unfoldable is_item : Values → Json → Items → Bool
is_item p v nil = false
is_item p v (cons w ws) = p.eq v w || is_item p v ws

-- `k in d` of a value: a list or a dictionary has no hash.
unfoldable is_key : Json → Json → Result Bool
is_key (str k) (obj d) = ok (contains k d)
is_key (arr xs) w = raise type_error
is_key (obj d) w = raise type_error
is_key v w = ok false

-- `v in w`
unfoldable pub is_in : Values → Json → Json → Result Bool
unfolding is_item is_key is_substring
is_in p v (arr ws) = ok (is_item p v ws)
is_in p (str s) (str t) = ok (is_substring s t)
is_in p v (obj d) = is_key v (obj d)
is_in p v w = raise type_error

-- `isinstance(v, str) and target.lower() in v.lower()`
unfoldable pub text_contains : (Text → Text) → Json → Json → Result Bool
unfolding is_substring
text_contains lower (str s) (str t) = ok (is_substring (lower t) (lower s))
text_contains lower (str s) w = raise attribute_error
text_contains lower v w = ok false

-- A value where a keyword is expected: `tokenize` takes any empty value as the empty text.
unfoldable pub keyword : Json → Result Text
unfolding truthy
keyword (str s) = ok s
keyword v = elim (truthy v) [ true ↦ raise attribute_error | false ↦ ok [] ]

unfoldable pub keywords : Items → Result (List Text)
unfolding keyword
keywords nil = ok []
keywords (cons v vs) = do s ← keyword v; rest ← keywords vs; ok (s ∷ rest)
