-- ===== src/Builder.antt =====
-- The query builder of the Python client, client/mkdb_client/query_builder.py: the classes `Q` and
-- `FieldProxy`.
pub mod Requests
use mk_db.Base.{ℕ, zero, suc, Text, codes, [], ◌∷◌, Bool, false, Option, none, some}
use mk_db.Json.{Json, bool, int, str, arr, obj, Items, nil, cons, Fields, end, field}

-- `_limit` and `_offset` are naturals.
pub record Q : Type 0 where
  pub filter : Fields
  pub sort_key : Option Text
  pub limit_count : Option ℕ
  pub offset_count : Option ℕ

-- `Q(filter_dict)`
abbrev q_of : Fields → Q
q_of d = record { filter = d; sort_key = none; limit_count = none; offset_count = none }

unfoldable pub sort : Text → Q → Q
sort key q = record q { sort_key = some key }

unfoldable pub limit : ℕ → Q → Q
limit n q = record q { limit_count = some n }

unfoldable pub offset : ℕ → Q → Q
offset n q = record q { offset_count = some n }

abbrev both : Q → Q → Json
both q r = arr (cons (obj q.filter) (cons (obj r.filter) nil))

-- `q & r` and `q | r`; the order and the page of the two are not taken over.
unfoldable and_query : Q → Q → Q
and_query q r = q_of (field (codes "$and") (both q r) end)

unfoldable or_query : Q → Q → Q
or_query q r = q_of (field (codes "$or") (both q r) end)

-- An entry that is written only for a value that is true: not for an empty text, and not for 0.
abbrev with_text : Text → Option Text → Fields → Fields
with_text k none d = d
with_text k (some []) d = d
with_text k (some (c ∷ s)) d = field k (str (c ∷ s)) d

abbrev with_count : Text → Option ℕ → Fields → Fields
with_count k none d = d
with_count k (some zero) d = d
with_count k (some (suc n)) d = field k (int false (suc n)) d

unfoldable pub build : Q → Fields
build q = field (codes "filter") (obj q.filter) (
    with_text (codes "sort") q.sort_key
      (with_count (codes "limit") q.limit_count (with_count (codes "offset") q.offset_count end)))

-- `FieldProxy`: a clause on the field of the name.
abbrev clause : Text → Text → Json → Q
clause name op v = q_of (field name (obj (field op v end)) end)

unfoldable eq_clause : Text → Json → Q
eq_clause name v = clause name (codes "eq") v

unfoldable neq_clause : Text → Json → Q
neq_clause name v = clause name (codes "neq") v

unfoldable gt_clause : Text → Json → Q
gt_clause name v = clause name (codes "gt") v

unfoldable gte_clause : Text → Json → Q
gte_clause name v = clause name (codes "gte") v

unfoldable lt_clause : Text → Json → Q
lt_clause name v = clause name (codes "lt") v

unfoldable lte_clause : Text → Json → Q
lte_clause name v = clause name (codes "lte") v

unfoldable contains_clause : Text → Text → Q
contains_clause name s = clause name (codes "contains") (str s)

unfoldable is_included_clause : Text → Items → Q
is_included_clause name vs = clause name (codes "in") (arr vs)

unfoldable exists_clause : Text → Bool → Q
exists_clause name b = clause name (codes "exists") (bool b)
