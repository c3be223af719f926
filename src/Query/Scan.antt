-- ===== src/Query/Scan.antt =====
-- The scan of every record, `_full_scan_filter` of mkdb/db/query/query_engine.py. What the engine
-- asks of its store is an interface: the ids of the index manager, the `read` of a record, and three
-- settings. The timeout, which is off by default, is not modelled.
use mk_db.Base.{
  ℕ, Text, text_key, codes, List, [], ◌∷◌, Option, none, some, Bool, true, false, not, has_char,
  split, ok, ◌>>=◌, if◌then◌else◌, Dict, ◌&&◌,
}
use mk_db.Base.Dicts
use mk_db.Base.Result.{Result}
use mk_db.Json.{Json, null, arr, nil, str, Fields, end, field}
use mk_db.Json.Entries.{get}
use mk_db.Objects.Paths.{get_path}
use mk_db.Query.Values.{Values, is_in, text_contains, truthy}

pub record Source : Type 0 where
  -- `index_manager.all_record_ids()`
  pub ids : List Text
  -- `store.read`
  pub read : Text → Result (Option Fields)
  -- `nested_queries_enabled`
  pub nested : Bool
  -- `query_recursion_limit`
  pub recursion_limit : ℕ
  -- `str.lower`
  pub lower : Text → Text
  pub values : Values

pub data Op : Type 0 where
  eq neq in_op nin contains_op gt ge lt le exists_op : Op

-- A choice by the name of a clause: `$or`, `$and`, or a field.
abbrev pub by_name {ℓ} : {A B : Type 0} {R : Type ℓ} → Dec A → Dec B → R → R → R → R
by_name (yes _) b on_or on_and on_field = on_or
by_name (no _) (yes _) on_or on_and on_field = on_and
by_name (no _) (no _) on_or on_and on_field = on_field

-- The operators by name, with the aliases of `_OP_ALIASES`.
unfoldable pub operators : Dict Text Op
operators =
    (codes ">", gt)
    ∷ (codes ">=", ge)
    ∷ (codes "<", lt)
    ∷ (codes "<=", le)
    ∷ (codes "gte", ge)
    ∷ (codes "lte", le)
    ∷ (codes "gt", gt)
    ∷ (codes "lt", lt)
    ∷ (codes "exists", exists_op)
    ∷ (codes "in", in_op)
    ∷ (codes "is_included", in_op)
    ∷ (codes "nin", nin)
    ∷ (codes "not_included", nin)
    ∷ (codes "contains", contains_op)
    ∷ (codes "eq", eq)
    ∷ (codes "neq", neq)
    ∷ []

unfoldable pub op_of : Text → Option Op
op_of k = Dicts.get k operators

-- `None` is the value of a field that is not there.
abbrev pub or_null : Option Json → Json
or_null none = null
or_null (some v) = v

-- `get_val` of the scan.
unfoldable pub value_in : Source → Text → Option Fields → Json
unfolding get_path get has_char split
value_in x f none = null
value_in x f (some end) = null
value_in x f (some (field k v d)) =
    if x.nested && has_char b'.' f
    then or_null (get_path (split b'.' f) (field k v d))
    else or_null (get f (field k v d))

-- `exists_check`
unfoldable exists_check : Json → Bool
exists_check null = false
exists_check (str []) = false
exists_check (arr nil) = false
exists_check v = true

-- The comparison of an order, which a missing value does not pass.
abbrev not_null_and : (Json → Json → Result Bool) → Json → Json → Result Bool
not_null_and f null w = ok false
not_null_and f v w = f v w

-- Whether a value passes an operator with its operand; `exists` calls `exists_check`, or its negation.
unfoldable pub passes : Source → Op → Json → Json → Result Bool
unfolding is_in text_contains exists_check truthy
passes x eq v target = ok (x.values.eq v target)
passes x neq v target = ok (not (x.values.eq v target))
passes x in_op v target = is_in x.values v target
passes x nin v target = do b ← is_in x.values v target; ok (not b)
passes x contains_op v target = text_contains x.lower v target
passes x gt v target = not_null_and x.values.gt v target
passes x ge v target = not_null_and x.values.ge v target
passes x lt v target = not_null_and x.values.lt v target
passes x le v target = not_null_and x.values.le v target
passes x exists_op v target = ok (if truthy target then exists_check v else not (exists_check v))

-- The test of one record.
unfoldable pub record_passes : Source → Text → Op → Json → Text → Result Bool
record_passes x f op target id = do rec ← x.read id; passes x op (value_in x f rec) target

-- The loop over the ids.
unfoldable pub scan_ids : (Text → Result Bool) → List Text → Result (List Text)
scan_ids p [] = ok []
scan_ids p (id ∷ ids) = do b ← p id; rest ← scan_ids p ids; ok (if b then id ∷ rest else rest)

-- `_full_scan_filter`
unfoldable pub full_scan_filter : Source → Text → Json → Op → Result (List Text)
full_scan_filter x f target op = scan_ids (record_passes x f op target) x.ids
