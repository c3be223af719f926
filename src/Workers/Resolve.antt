-- ===== src/Workers/Resolve.antt =====
-- How a query worker answers a task, mkdb/db/query_workers/worker.py: `_resolve` and the five functions
-- behind it, with the managers that `_read` keeps in an attribute of its own. The query engine of
-- `_query` is a section parameter, the interface `QueryOps`: it reads records through `_read`. A
-- `KeyError` of the cache, which a valid cache does not raise, leaves the worker as it was.
use mk_db.Base.{
  ℕ, suc, Text, codes, List, [], ◌∷◌, Option, none, some, Bool, true, false, Dict, ok, raise, ◌>>=◌,
  if◌then◌else◌, value_error, type_error, text_discrete, test,
}
use mk_db.Base.Result.{Result}
use mk_db.Json.{Json, null, bool, int, str, arr, obj, Items, nil, cons, Fields, end, field}
use mk_db.Json.Entries.{get, put}
use mk_db.Codec.{Codec, Bytes}
use mk_db.Log
use mk_db.Log.{Log}
use mk_db.Index
use mk_db.Index.{Index, Entry}
use mk_db.Index.Bootstrap.{open_index}
use mk_db.Disk.{record_of}
use mk_db.Store.{with_id}
use mk_db.Query.Values.{truthy}
use mk_db.Workers.LocalCache
use mk_db.Workers.LocalCache.{LocalCache}
use mk_db.Workers.Task.{QueryTask}

-- The directory of the store, which the workers share with the process that writes.
pub record Directory : Type 0 where
  pub service : Text
  pub index_file : Option Text
  pub files : Dict Text Bytes

pub record Worker : Type 0 where
  pub cache : LocalCache
  -- `_read._managers`
  pub managers : Option (Index × Log)
  -- `index_manager` of the store proxy of `_query._engine`
  pub proxy : Option Index
  pub dir : Directory

-- A step of a worker, which keeps its state also where it raises.
abbrev pub Answered : Type 0 → Type 0
Answered A = Result A × Worker

pub record QueryOps : Type 0 where
  -- `_query._engine.query(params)`, with the engine made first if there is none
  pub query : Fields → Worker → Answered Fields

-- `params.get("record_id", "")`: a text, or `none` for a value that is no record's id. An empty value is
-- refused, and a list or a dictionary has no hash.
unfoldable record_id_of : Option Json → Result (Option Text)
unfolding truthy
record_id_of none = raise value_error
record_id_of (some (str [])) = raise value_error
record_id_of (some (str (x ∷ id))) = ok (some (x ∷ id))
record_id_of (some (arr nil)) = raise value_error
record_id_of (some (arr (cons v vs))) = raise type_error
record_id_of (some (obj end)) = raise value_error
record_id_of (some (obj (field k v d))) = raise type_error
record_id_of (some v) = if truthy v then ok none else raise value_error

-- What is iterated over: a list, the characters of a text, or the keys of a dictionary.
unfoldable chars_of : Text → List Json
chars_of [] = []
chars_of (x ∷ s) = str (x ∷ []) ∷ chars_of s

unfoldable items_of : Items → List Json
items_of nil = []
items_of (cons v vs) = v ∷ items_of vs

unfoldable keys_of : Fields → List Json
keys_of end = []
keys_of (field k v d) = str k ∷ keys_of d

unfoldable iterate : Option Json → Result (List Json)
unfolding chars_of items_of keys_of
iterate none = ok []
iterate (some (arr vs)) = ok (items_of vs)
iterate (some (str s)) = ok (chars_of s)
iterate (some (obj d)) = ok (keys_of d)
iterate (some v) = raise type_error

abbrev json_of : Option Fields → Json
json_of none = null
json_of (some d) = obj d

-- A step after another, unless that raised.
abbrev and_then : {A B : Type 0} → Answered A → (A → Worker → Answered B) → Answered B
and_then (ok a, w) f = f a w
and_then (raise e, w) f = (raise e, w)

module _ (c : Codec) (lossy : Bytes → Text) where
  -- `IndexManager(base_path, store_name)`, which writes the index file if there was none.
  unfoldable open_worker_index : Worker → Answered Index
  unfolding open_index
  open_worker_index w = elim (open_index c lossy w.dir.service w.dir.index_file w.dir.files) [
    | raise e ↦ (raise e, w)
    | ok idx ↦ (ok idx, record w { dir = record w.dir { index_file = idx.file } })
  ]

  -- `LogManager(base_path, store_name, 10 ** 9)` for the index, and the two are kept.
  unfoldable keep_managers : Index → Worker → Answered (Index × Log)
  keep_managers idx w =
      let lmgr = Log.init w.dir.service 1000000000 w.dir.files in
      (
        ok (idx, lmgr),
        record w { managers = some (idx, lmgr); dir = record w.dir { files = lmgr.files } },
      )

  unfoldable pub managers_in : Option (Index × Log) → Worker → Answered (Index × Log)
  unfolding open_worker_index keep_managers
  managers_in (some ms) w = (ok ms, w)
  managers_in none w = and_then (open_worker_index w) keep_managers

  -- The line at an entry, read from the files as they are now.
  unfoldable pub read_line : Index × Log → Entry → Worker → Result Fields
  read_line ms e w = do
    line ← Log.read c e.segment_seq e.offset e.size (record ms.1 { files = w.dir.files })
    record_of c line

  unfoldable pub kept : Fields → Worker → Result LocalCache → Answered (Option Fields)
  kept result w (raise e) = (raise e, w)
  kept result w (ok cache') = (ok (some result), record w { cache = cache' })

  -- `cache.set` of a record that was read.
  unfoldable pub keep : ℕ → Text → Result Fields → Worker → Answered (Option Fields)
  unfolding with_id kept
  keep later id (raise e) w = (raise e, w)
  keep later id (ok d) w = kept (with_id id d) w (LocalCache.set later id (with_id id d) w.cache)

  unfoldable pub read_entry :
      ℕ → Text → Index × Log → Option Entry → Worker → Answered (Option Fields)
  unfolding read_line keep
  read_entry later id ms none w = (ok none, w)
  read_entry later id ms (some e) w = keep later id (read_line ms e w) w

  unfoldable pub read_behind : ℕ → Text → Worker → Answered (Option Fields)
  unfolding managers_in read_entry
  read_behind later id w =
      and_then (managers_in w.managers w) (λ ms w'. read_entry later id ms (Index.get id ms.0) w')

  unfoldable pub answer_cached :
      ℕ → Text → Worker → Result (Option Fields × LocalCache) → Answered (Option Fields)
  unfolding read_behind
  answer_cached later id w (raise e) = (raise e, w)
  answer_cached later id w (ok (some d, cache')) = (ok (some d), record w { cache = cache' })
  answer_cached later id w (ok (none, cache')) = read_behind later id (record w { cache = cache' })

  -- `_read` of an id: the worker's cache, and behind it the files. `later` is the clock of `set`.
  unfoldable pub read_id : ℕ → ℕ → Text → Worker → Answered (Option Fields)
  unfolding answer_cached
  read_id now later id w = answer_cached later id w (LocalCache.get now id w.cache)

  -- A value that is no text is neither in the cache nor in the index, which is opened.
  unfoldable read_value : ℕ → ℕ → Result (Option Text) → Worker → Answered (Option Fields)
  unfolding read_id managers_in
  read_value now later (raise e) w = (raise e, w)
  read_value now later (ok none) w = and_then (managers_in w.managers w) (λ ms w'. (ok none, w'))
  read_value now later (ok (some id)) w = read_id now later id w

  -- `_read`
  unfoldable pub read : ℕ → ℕ → Fields → Worker → Answered (Option Fields)
  unfolding read_value record_id_of get
  read now later params w = read_value now later (record_id_of (get (codes "record_id") params)) w

  -- `if res: results[rid] = res`; a record that was found has its `_id`.
  abbrev add_result : Json → Option Fields → Fields → Fields
  add_result (str id) (some d) results = put id (obj d) results
  add_result rid res results = results

  -- The loop of `_multi_read`; `clock n` are the two readings of the clock after `n` ids.
  unfoldable pub read_each : (ℕ → ℕ × ℕ) → List Json → Fields → ℕ → Worker → Answered Fields
  unfolding read
  read_each clock [] results n w = (ok results, w)
  read_each clock (rid ∷ rids) results n w =
      and_then (read (clock n).0 (clock n).1 (field (codes "record_id") rid end) w)
        (λ res w'. read_each clock rids (add_result rid res results) (suc n) w')

  unfoldable multi_read : (ℕ → ℕ × ℕ) → Fields → Worker → Answered Fields
  unfolding read_each iterate get
  multi_read clock params w = elim (iterate (get (codes "record_ids") params)) [
    | raise e ↦ (raise e, w)
    | ok rids ↦ read_each clock rids end 0 w
  ]

  -- The index that `_exists` asks: that of the managers, or a new one that is not kept.
  unfoldable index_for_exists : Option (Index × Log) → Worker → Answered Index
  unfolding open_worker_index
  index_for_exists (some ms) w = (ok ms.0, w)
  index_for_exists none w = open_worker_index w

  abbrev is_indexed : Option Text → Index → Bool
  is_indexed none idx = false
  is_indexed (some id) idx = elim (Index.get id idx) [ none ↦ false | some e ↦ true ]

  unfoldable exists_behind : Option Text → Worker → Answered Bool
  unfolding index_for_exists
  exists_behind id w =
      and_then (index_for_exists w.managers w) (λ idx w'. (ok (is_indexed id idx), w'))

  unfoldable exists_cached : Text → Worker → Result (Option Fields × LocalCache) → Answered Bool
  unfolding exists_behind
  exists_cached id w (raise e) = (raise e, w)
  exists_cached id w (ok (some d, cache')) = (ok true, record w { cache = cache' })
  exists_cached id w (ok (none, cache')) = exists_behind (some id) (record w { cache = cache' })

  unfoldable exists_value : ℕ → Result (Option Text) → Worker → Answered Bool
  unfolding exists_cached
  exists_value now (raise e) w = (raise e, w)
  exists_value now (ok none) w = exists_behind none w
  exists_value now (ok (some id)) w = exists_cached id w (LocalCache.get now id w.cache)

  -- `_exists`
  unfoldable pub exists : ℕ → Fields → Worker → Answered Bool
  unfolding exists_value record_id_of get
  exists now params w = exists_value now (record_id_of (get (codes "record_id") params)) w

  module _ (q : QueryOps) where
    abbrev pub total_matches : Option Json → Json
    total_matches none = int false 0
    total_matches (some v) = v

    -- `_count`
    unfoldable pub count : Fields → Worker → Answered Json
    unfolding get
    count params w =
        and_then (q.query params w)
          (λ res w'. (ok (total_matches (get (codes "total_matches") res)), w'))

    -- `_resolve`
    unfoldable pub resolve : (ℕ → ℕ × ℕ) → QueryTask → Worker → Answered Json
    unfolding read multi_read exists count
    resolve clock t w =
        if test (text_discrete t.operation (codes "read"))
        then and_then (read (clock 0).0 (clock 0).1 t.params w) (λ res w'. (ok (json_of res), w'))
        else if test (text_discrete t.operation (codes "multi_read"))
        then and_then (multi_read clock t.params w) (λ res w'. (ok (obj res), w'))
        else if test (text_discrete t.operation (codes "exists"))
        then and_then (exists (clock 0).0 t.params w) (λ b w'. (ok (bool b), w'))
        else if test (text_discrete t.operation (codes "query"))
        then and_then (q.query t.params w) (λ res w'. (ok (obj res), w'))
        else if test (text_discrete t.operation (codes "count"))
        then count t.params w
        else (raise value_error, w)
