-- ===== src/Json/Entries/Defs.antt =====
-- Python's operations on a `dict` of JSON values.
use mk_db.Base.{Option, none, some, Text, text_discrete, ite, is_some, Bool}
use mk_db.Json.Data.{Json, Fields, end, field}

-- `d.get(k)`
unfoldable pub get : Text → Fields → Option Json
get k end = none
get k (field j v d) = ite (text_discrete j k) (some v) (get k d)

-- `k in d`
abbrev pub contains : Text → Fields → Bool
contains k d = is_some (get k d)

-- `d[k] = v`
unfoldable pub put : Text → Json → Fields → Fields
put k v end = field k v end
put k v (field j w d) = ite (text_discrete j k) (field j v d) (field j w (put k v d))

-- `d.pop(k, None)`
unfoldable pub remove : Text → Fields → Fields
remove k end = end
remove k (field j w d) = ite (text_discrete j k) (remove k d) (field j w (remove k d))

-- `d.update(u)`, and `{**d, **u}`
unfoldable pub update : Fields → Fields → Fields
update d end = d
update d (field k v u) = update (put k v d) u
