-- ===== src/Json/Entries/Laws.antt =====
-- What a `dict` holds after each operation on it.
use mk_db.Base.{◌≡◌, refl, none, some, Text, text_discrete, ite, arith, or_else}
use mk_db.Json.Data.{Json, Fields, end, field}
use mk_db.Json.Entries.Defs.{get, put, remove, update}

pub get-put :
    (k j : Text) (v : Json) (d : Fields)
    → get j (put k v d) ≡ ite (text_discrete k j) (some v) (get j d)
unfolding get put
get-put k j v end = refl
get-put k j v (field i w d) = ground (arith, get-put k j v d)

pub get-remove :
    (k j : Text) (d : Fields) → get j (remove k d) ≡ ite (text_discrete k j) none (get j d)
unfolding get remove
get-remove k j end = ground arith
get-remove k j (field i w d) = ground (arith, get-remove k j d)

-- No key stands twice, as in every Python `dict`.
abbrev pub HasDistinctKeys : Fields → Type 0
HasDistinctKeys end = Unit {0}
HasDistinctKeys (field k v d) = (get k d ≡ none) × HasDistinctKeys d

-- `update`: the new entries, and below them the old ones.
pub get-update :
    (k : Text) (d u : Fields) → HasDistinctKeys u → get k (update d u) ≡ or_else (get k u) (get k d)
unfolding get update
get-update k d end h = refl
get-update k d (field j v u) h =
    ground (arith, get-update k (put j v d) u h.1, get-put j k v d, h.0)

pub put-HasDistinctKeys :
    (k : Text) (v : Json) (d : Fields) → HasDistinctKeys d → HasDistinctKeys (put k v d)
unfolding put get
put-HasDistinctKeys k v end h = (refl, tt)
put-HasDistinctKeys k v (field j w d) h =
    ground (arith, put-HasDistinctKeys k v d h.1, get-put k j v d)

pub remove-HasDistinctKeys :
    (k : Text) (d : Fields) → HasDistinctKeys d → HasDistinctKeys (remove k d)
unfolding remove get
remove-HasDistinctKeys k end h = tt
remove-HasDistinctKeys k (field j w d) h =
    ground (arith, remove-HasDistinctKeys k d h.1, get-remove k j d)

pub update-HasDistinctKeys : (d u : Fields) → HasDistinctKeys d → HasDistinctKeys (update d u)
unfolding update
update-HasDistinctKeys d end h = h
update-HasDistinctKeys d (field k v u) h =
    update-HasDistinctKeys (put k v d) u (put-HasDistinctKeys k v d h)
