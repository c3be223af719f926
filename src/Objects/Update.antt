-- ===== src/Objects/Update.antt =====
-- What `deep_update` leaves at each key.
use mk_db.Base.{
  ◌≡◌, refl, Text, Option, none, some, ite, text_discrete, arith, Option-cases, inl, inr,
}
use mk_db.Json.{Json, null, obj, Fields, end, field}
use mk_db.Json.Entries.{get, get-put, get-remove, HasDistinctKeys}
use mk_db.Objects.{deep_update, deep_write, as_dict}

-- The entry after the update, from the old entry and the one that updates it.
abbrev pub merged : Option Json → Option Json → Option Json
merged old none = old
merged old (some null) = none
merged (some (obj d)) (some (obj u)) = some (obj (deep_update d u))
merged old (some v) = some v

get-deep_write :
    (m : Fields) (j k : Text) (v : Json)
    → get j (deep_write m k v) ≡ ite (text_discrete k j) (merged (get j m) (some v)) (get j m)
unfolding deep_write
get-deep_write m j k null = ground (arith, get-remove k j m)
get-deep_write m j k (obj u) = elim (Option-cases (as_dict (get k m))) [
  | inl fresh ↦ ground (arith, get-put k j (obj u) m)
  | inr (old, found) ↦ ground (arith, get-put k j (obj (deep_update old u)) m)
]
get-deep_write m j k v = ground (arith, get-put k j v m)

-- For an update without doubled keys, `deep_update` decides every key by itself: a key that the
-- update does not hold keeps its value, `None` removes it, two dictionaries are merged deeply,
-- and any other value replaces the old one.
get-deep_update :
    (k : Text) (m u : Fields)
    → HasDistinctKeys u
    → get k (deep_update m u) ≡ merged (get k m) (get k u)
unfolding get deep_update
get-deep_update k m end h = refl
get-deep_update k m (field j v u) h =
    ground (arith, get-deep_update k (deep_write m j v) u h.1, get-deep_write m k j v, h.0)
