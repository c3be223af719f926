-- ===== src/Workers/Task.antt =====
-- A task for the query workers, mkdb/db/query_workers/task.py: the class `QueryTask`. `uuid4().hex` of
-- a new task is an argument.
use mk_db.Base.{
  Text, codes, [], ◌∷◌, Dict, text_key, ok, raise, value_error, type_error, if◌then◌else◌, contains,
}
use mk_db.Base.Result.{Result}
use mk_db.Json.{Json, obj, str, Fields, end, field}

pub record QueryTask : Type 0 where
  pub operation : Text
  pub store_name : Text
  pub params : Fields
  pub task_id : Text

-- `OPERATIONS`
abbrev pub operations : Dict Text Unit
operations =
    (codes "read", tt)
    ∷ (codes "query", tt)
    ∷ (codes "count", tt)
    ∷ (codes "exists", tt)
    ∷ (codes "multi_read", tt)
    ∷ []

abbrev params_or_raise : Json → Result Fields
params_or_raise (obj d) = ok d
params_or_raise _ = raise type_error

abbrev with_params : Text → Text → Text → Result Fields → Result QueryTask
with_params operation store_name task_id (raise e) = raise e
with_params operation store_name task_id (ok d) =
    ok (record { operation = operation; store_name = store_name; params = d; task_id = task_id })

-- The constructor with its `__post_init__`, which refuses an operation of another name, an
-- empty store name, and parameters that are no dictionary.
unfoldable pub query_task : Text → Text → Json → Text → Result QueryTask
query_task operation [] params task_id = raise value_error
query_task operation (c ∷ store_name) params task_id =
    if contains operation operations
    then with_params operation (c ∷ store_name) task_id (params_or_raise params)
    else raise value_error

unfoldable to_dict : QueryTask → Fields
to_dict t = field (codes "task_id") (str t.task_id) (
    field (codes "operation") (str t.operation)
      (field (codes "store_name") (str t.store_name) (field (codes "params") (obj t.params) end)))
