-- ===== src/Workers/LocalCache.antt =====
-- The cache of one query worker, mkdb/db/query_workers/worker.py: the class `_WorkerCache`. Only its
-- worker uses it. `time.monotonic()` is an argument.
pub mod Bounds
use mk_db.Base.{
  ℕ, ◌-◌, Text, [], ◌∷◌, ◌++◌, Option, none, some, Dict, put, remove, contains, first_key, length,
  ltb, leb, ◌==◌, if◌then◌else◌, ok, raise, ◌>>=◌, or_raise, key_error, text_key,
}
use mk_db.Base.Dicts
use mk_db.Base.Result.{Result}
use mk_db.Json.{Fields}
use mk_db.Cache.{move_to_end}

pub record LocalCache : Type 0 where
  pub max : ℕ
  -- In the unit of the clock.
  pub ttl : ℕ
  pub entries : Dict Text Fields
  -- An `OrderedDict`, the least recently used key first.
  pub order : Dict Text (Unit {0})
  pub ts : Dict Text ℕ

-- `__init__`
unfoldable pub init : ℕ → ℕ → LocalCache
init max_size ttl = record {
  max = if max_size == 0 then 1 else max_size;
  ttl = ttl;
  entries = [];
  order = [];
  ts = [];
}

-- `_evict_one`, which is also `delete`
unfoldable pub evict_one : Text → LocalCache → LocalCache
evict_one k c = record c {
  entries = remove k c.entries;
  order = remove k c.order;
  ts = remove k c.ts;
}

-- `get`: the entry, or `none` on a miss. The monotonic clock is not before the stamp.
unfoldable pub get : ℕ → Text → LocalCache → Result (Option Fields × LocalCache)
unfolding evict_one move_to_end
get now k c =
    if contains k c.entries
    then (do
      stamp ← or_raise key_error (Dicts.get k c.ts)
      if ltb c.ttl (now - stamp) then ok (none, evict_one k c) else (do
        moved ← move_to_end k c.order
        ok (Dicts.get k c.entries, record c { order = moved })))
    else ok (none, c)

-- `del m[k]`
abbrev pub del : {V : Type 0} → Text → Dict Text V → Result (Dict Text V)
del k m = if contains k m then ok (remove k m) else raise key_error

-- `popitem(last=False)`, and the entry with its stamp; `popitem` of an empty dictionary is a `KeyError`.
unfoldable pub pop_oldest : LocalCache → Result LocalCache
pop_oldest c = do
  oldest ← or_raise key_error (first_key c.order)
  entries' ← del oldest c.entries
  ts' ← del oldest c.ts
  ok (record c { entries = entries'; order = remove oldest c.order; ts = ts' })

-- The entry is not there: room is made for it, and it goes to the end of the order.
unfoldable pub make_room : Text → LocalCache → Result LocalCache
unfolding pop_oldest
make_room k c = do
  c' ← (if leb c.max (length c.entries) then pop_oldest c else ok c)
  ok (record c' { order = put k tt c'.order })

unfoldable pub touch : Text → LocalCache → Result LocalCache
unfolding move_to_end
touch k c = do moved ← move_to_end k c.order; ok (record c { order = moved })

unfoldable pub set : ℕ → Text → Fields → LocalCache → Result LocalCache
unfolding touch make_room
set now k d c = do
  c' ← (if contains k c.entries then touch k c else make_room k c)
  ok (record c' { entries = put k d c'.entries; ts = put k now c'.ts })

unfoldable clear : LocalCache → LocalCache
clear c = record c { entries = []; order = []; ts = [] }
