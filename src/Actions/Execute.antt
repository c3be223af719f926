-- ===== src/Actions/Execute.antt =====
-- `execute` of mkdb/server/coms/actions.py with `_do_read`, `_do_write`, `_do_delete` and `_do_query`.
use mk_db.Base.{
  ℕ, zero, suc, Text, text_key, text_discrete, codes, List, [], ◌∷◌, ◌++◌, Option, none, some, Bool,
  true, false, ◌||◌, Dict, put, if◌then◌else◌, length, strip, test,
}
use mk_db.Base.Dicts
use mk_db.Json.{Json, null, bool, int, str, arr, obj, Items, nil, cons, Fields, end, field}
use mk_db.Json.Entries
use mk_db.Metrics.{Metrics, Request, record_request, record_slow_query}
use mk_db.Metrics
use mk_db.Query.Values.{truthy, is_substring}
use mk_db.Actions.Steps.{
  Exception, Outcome, returned, raised, QueryResult, StoreOps, Event, Local, Step, return, ◌>>=◌,
  lift, call, try_step, count_request, publish, ActionResult,
}

abbrev success : Json → ActionResult
success d = record { ok = true; data_value = d; error = []; http_code = 400 }

abbrev pub failure : Text → ℕ → ActionResult
failure message code = record { ok = false; data_value = null; error = message; http_code = code }

-- Who asks, by which transport, when, and whether there are subscribers to tell.
pub record Caller : Type 0 where
  pub store_name : Text
  pub client_key : Text
  pub transport : Text
  pub now : ℕ
  pub has_broadcast : Bool

-- What the actions use of Python and of the measured time: `len(json.dumps(d).encode())`, `str(v)`, `repr(s)`, `int(v)`, `str.lower`, the
-- rounded duration of a query in milliseconds, and whether it is over the threshold of the store.
pub record Runtime : Type 0 where
  pub size : Fields → ℕ
  pub text_of : Json → Text
  pub repr : Text → Text
  pub to_int : Json → Outcome ℕ
  pub lower : Text → Text
  pub duration_ms : Json
  pub is_slow : Bool

-- `params.get(k, default)`
abbrev pub param : Text → Json → Fields → Json
param k default d = elim (Entries.get k d) [ none ↦ default | some v ↦ v ]

abbrev not_found : Text → Text → Text
not_found id name =
    codes "Record '" ++ (id ++ (codes "' not found in store '" ++ (name ++ codes "'")))

abbrev pub request : Metrics.Op → ℕ → ℕ → Text → Caller → Request
request op bytes_in bytes_out message w = record {
  op = op;
  client_key = w.client_key;
  bytes_in = bytes_in;
  bytes_out = bytes_out;
  transport = w.transport;
  error_msg = message;
}

-- The texts, as a JSON list.
abbrev strs : List Text → Items
strs [] = nil
strs (s ∷ ss) = cons (str s) (strs ss)

module _ {S : Type 0} (ops : StoreOps S) (rt : Runtime) where
  abbrev record_op : Caller → Metrics.Op → ℕ → ℕ → Text → Step S Unit
  record_op w op bytes_in bytes_out message =
      count_request (record_request w.now w.store_name (request op bytes_in bytes_out message w))

  -- The part of `_do_read` after the read.
  unfoldable pub answer_read : Caller → Json → Option Fields → Step S ActionResult
  answer_read w id none = do
    _ ← record_op w Metrics.error 0 0 (not_found (rt.text_of id) w.store_name)
    return (failure (not_found (rt.text_of id) w.store_name) 404)
  answer_read w id (some d) = do
    _ ← record_op w Metrics.read 0 (rt.size d) []
    return (success (obj d))

  -- `_do_read`
  unfoldable pub do_read : Caller → Fields → Step S ActionResult
  unfolding truthy Entries.get answer_read
  do_read w params =
      let id = param (codes "record_id") (str []) params in
      elim (truthy id) [
        | false ↦ return (failure (codes "Missing 'record_id'") 400)
        | true ↦ call (ops.read id) >>= answer_read w id
      ]

  abbrev broadcast : Caller → Json → Text → Step S Unit
  broadcast w id op =
      if w.has_broadcast
      then publish (record { store = w.store_name; record_id = id; op = op })
      else return tt

  -- The part of `_do_write` after the id is known.
  unfoldable write_as : Caller → Text → Fields → ℕ → Step S ActionResult
  write_as w id delta bytes_in = do
    _ ← call (ops.write id delta)
    _ ← record_op w Metrics.write (elim bytes_in [ zero ↦ rt.size delta | suc n ↦ suc n ]) 0 []
    _ ← broadcast w (str id) (codes "write")
    return (success (obj (field (codes "record_id") (str id) end)))

  -- An id is made where none is given; that there is none left is a `RuntimeError`.
  unfoldable write_new : Caller → Fields → ℕ → Step S ActionResult
  unfolding write_as
  write_new w delta bytes_in s =
      let (made, store') = ops.generate_id s.store in
      elim made [
        | returned id ↦ write_as w id delta bytes_in (record s { store = store' })
        | raised e ↦
            if e.is_runtime
            then (returned (failure e.message 503), record s { store = store' })
            else (raised e, record s { store = store' })
      ]

  unfoldable write_delta : Caller → Text → Fields → ℕ → Step S ActionResult
  unfolding write_as write_new
  write_delta w [] delta bytes_in = write_new w delta bytes_in
  write_delta w (c ∷ id) delta bytes_in = write_as w (c ∷ id) delta bytes_in

  -- `_do_write`
  unfoldable do_write : Caller → Fields → Step S ActionResult
  unfolding write_delta Entries.get
  do_write w params = do
    bytes_in ← lift (rt.to_int (param (codes "bytes_in") (int false 0) params))
    elim (param (codes "delta") (obj end) params) [
      | obj delta ↦
          write_delta w (strip (rt.text_of (param (codes "record_id") (str []) params))) delta
            bytes_in
      | _ ↦ return (failure (codes "'delta' must be a JSON object") 400)
    ]

  -- `_do_delete`
  unfoldable do_delete : Caller → Fields → Step S ActionResult
  unfolding truthy Entries.get
  do_delete w params =
      let id = param (codes "record_id") (str []) params in
      elim (truthy id) [
        | false ↦ return (failure (codes "Missing 'record_id'") 400)
        | true ↦ do
          _ ← call (ops.delete id)
          _ ← record_op w Metrics.delete 0 0 []
          _ ← broadcast w id (codes "delete")
          return (success (obj (field (codes "record_id") id end)))
      ]

  -- The status of a failed query, by the words of its message.
  unfoldable query_code : Text → ℕ
  unfolding is_substring
  query_code message =
      if is_substring (codes "recursion limit exceeded") message
      then 400
      else (if is_substring (codes "exceeded hard limit") message
            || is_substring (codes "timeout") message
          then 408
          else 500)

  -- The records of the ids, those that are still there.
  unfoldable pub read_each : List Text → Step S Items
  read_each [] = return nil
  read_each (id ∷ ids) = do
    found ← call (ops.read (str id))
    rest ← read_each ids
    return (elim found [ none ↦ rest | some d ↦ cons (obj d) rest ])

  abbrev length_items : Items → ℕ
  length_items nil = 0
  length_items (cons v vs) = suc (length_items vs)

  -- The answer with the records, or with the ids.
  unfoldable query_answer : Bool → QueryResult → Step S (ℕ × Fields)
  unfolding read_each
  query_answer true q = do
    records ← read_each q.ids
    return (
      length_items records,
      field (codes "count") (int false (length_items records)) (
          field (codes "total_matches") (int false q.total_matches)
            (field (codes "records") (arr records) end)),
    )
  query_answer false q = return (
    length q.ids,
    field (codes "count") (int false (length q.ids)) (
        field (codes "total_matches") (int false q.total_matches)
          (field (codes "ids") (arr (strs q.ids)) end)),
  )

  abbrev note_slow : Caller → Fields → ℕ → Step S Unit
  note_slow w params n =
      if rt.is_slow
      then count_request (
          record_slow_query w.now w.store_name (record {
            ts = w.now;
            duration_ms = rt.duration_ms;
            filter = param (codes "filter") (obj end) params;
            result_count = n;
            client = w.client_key;
            transport = w.transport;
          }))
      else return tt

  -- `_do_query` after the query has returned. The warning in the event log is not modelled.
  unfoldable answer_query : Caller → Fields → QueryResult → Step S ActionResult
  unfolding query_answer Entries.get Entries.put truthy
  answer_query w params q = do
    (n, d) ← query_answer (truthy (param (codes "hydrate") (bool false) params)) q
    _ ← record_op w Metrics.query 0 (rt.size d) []
    _ ← note_slow w params n
    return (success (obj (Entries.put (codes "duration_ms") rt.duration_ms d)))

  unfoldable do_query : Caller → Fields → Step S ActionResult
  unfolding answer_query query_code
  do_query w params s =
      let (found, store') = ops.query params s.store in
      elim found [
        | returned q ↦ answer_query w params q (record s { store = store' })
        | raised e ↦
            (do
              _ ← record_op w Metrics.error 0 0 (codes "Query failed: " ++ e.message)
              return (failure e.message (query_code (rt.lower e.message))))
              (record s { store = store' })
      ]

  -- The action of a name, on a store.
  unfoldable pub action_of : Text → Caller → Fields → Step S ActionResult
  unfolding do_read do_write do_delete do_query
  action_of action w params =
      if test (text_discrete action (codes "read"))
      then do_read w params
      else if test (text_discrete action (codes "write"))
      then do_write w params
      else if test (text_discrete action (codes "delete"))
      then do_delete w params
      else if test (text_discrete action (codes "query"))
      then do_query w params
      else return (failure (codes "Unknown action: " ++ rt.repr action) 400)

  -- The `except` clause of `execute`.
  unfoldable pub on_exception : Caller → Exception → Step S ActionResult
  on_exception w e = do
    _ ← record_op w Metrics.error 0 0 (e.type_name ++ (codes ": " ++ e.message))
    return (failure e.message 500)

-- The database, the metrics and what was published.
pub record World (S : Type 0) : Type 0 where
  pub stores : Dict Text S
  pub metrics : Metrics
  pub events : List Event

module _ {S : Type 0} (ops : StoreOps S) (rt : Runtime) where
  unfoldable list_stores : Dict Text S → Items
  list_stores [] = nil
  list_stores ((name, s) ∷ stores) =
      cons
        (obj (
          field (codes "name") (str name)
            (field (codes "record_count") (int false (ops.record_count s)) end)))
        (list_stores stores)

  abbrev value_or : ActionResult → Outcome ActionResult → ActionResult
  value_or r (returned a) = a
  value_or r (raised e) = r

  abbrev pub close : Caller → World S → Outcome ActionResult × Local S → ActionResult × World S
  close w v (r, l) = (
    value_or (failure [] 500) r,
    record { stores = put w.store_name l.store v.stores; metrics = l.metrics; events = l.events },
  )

  -- `execute` on a store that is there; no exception leaves it.
  unfoldable pub execute_on : Text → Caller → Fields → S → World S → ActionResult × World S
  unfolding action_of on_exception
  execute_on action w params s v = close w v (
      try_step (action_of ops rt action w params) (on_exception ops rt w)
        (record { store = s; metrics = v.metrics; events = v.events }))

  unfoldable pub execute_at : Text → Caller → Fields → World S → Option S → ActionResult × World S
  unfolding execute_on
  execute_at action w params v none =
      (failure (codes "Store '" ++ (w.store_name ++ codes "' not found")) 404, v)
  execute_at action w params v (some s) = execute_on action w params s v

  -- An action that needs a store, which is looked up by its name.
  unfoldable pub execute_named : Text → Caller → Fields → World S → Text → ActionResult × World S
  unfolding execute_at
  execute_named action w params v [] = (failure (codes "'store' is required") 400, v)
  execute_named action w params v (c ∷ name) =
      execute_at action w params v (Dicts.get (c ∷ name) v.stores)

  -- `execute`; `none` is no database.
  unfoldable pub execute :
      Text → Caller → Fields → Option (World S) → ActionResult × Option (World S)
  unfolding list_stores execute_named
  execute action w params none = (failure (codes "Database not available") 503, none)
  execute action w params (some v) =
      if test (text_discrete action (codes "ping"))
      then (success (str (codes "pong")), some v)
      else if test (text_discrete action (codes "list_stores"))
      then (success (arr (list_stores v.stores)), some v)
      else (let (r, v') = execute_named action w params v w.store_name in (r, some v'))
