-- ===== src/Metrics.antt =====
-- The counts of requests by store, transport and client, mkdb/server/coms/metrics.py. The operation is
-- one of the five that `record` names; a count is a natural number. The lock makes each function one step.
pub mod Balance
use mk_db.Base.{
  ℕ, ◌+◌, ◌-◌, Text, text_key, text_discrete, codes, List, [], ◌∷◌, ◌++◌, Option, none, some, Bool,
  Dict, put, contains, if◌then◌else◌, length, drop, test, ◌||◌,
}
use mk_db.Base.Dicts
use mk_db.Json.{Json}

pub data Op : Type 0 where
  read write delete query error : Op

-- `_op_to_field`
unfoldable pub field_of : Op → Text
field_of read = codes "reads"
field_of write = codes "writes"
field_of delete = codes "deletes"
field_of query = codes "queries"
field_of error = codes "errors"

abbrev pub Counts : Type 0
Counts = Dict Text ℕ

-- `d.get(k, 0)`
unfoldable pub count : Text → Counts → ℕ
count k d = elim (Dicts.get k d) [ none ↦ 0 | some n ↦ n ]

-- `d[k] = d.get(k, 0) + n`
unfoldable pub bump : Text → ℕ → Counts → Counts
unfolding count
bump k n d = put k (count k d + n) d

-- `_client_default`
unfoldable pub client_default : Counts
client_default =
    (codes "reads", 0)
    ∷ (codes "writes", 0)
    ∷ (codes "deletes", 0)
    ∷ (codes "queries", 0)
    ∷ (codes "errors", 0)
    ∷ (codes "rate_limited", 0)
    ∷ (codes "bytes_in", 0)
    ∷ (codes "bytes_out", 0)
    ∷ []

pub record ErrorEntry : Type 0 where
  pub ts : ℕ
  pub message : Text
  pub client : Text
  pub transport : Text

pub record SlowEntry : Type 0 where
  pub ts : ℕ
  pub duration_ms : Json
  pub filter : Json
  pub result_count : ℕ
  pub client : Text
  pub transport : Text

pub record StoreMetrics : Type 0 where
  -- The numbers that stand in the dictionary itself.
  pub counts : Counts
  pub started_at : ℕ
  pub transport : Dict Text Counts
  pub clients : Dict Text Counts
  pub rate_limited_ips : Counts
  pub slow_query_log : List SlowEntry
  pub error_log : List ErrorEntry

-- `_transport_default`
unfoldable pub transport_default : Dict Text Counts
unfolding client_default
transport_default = (codes "http", client_default) ∷ (codes "socket", client_default) ∷ []

-- `_store_default`
unfoldable pub store_default : ℕ → StoreMetrics
unfolding transport_default client_default
store_default now = record {
  counts = client_default ++ ((codes "slow_queries", 0) ∷ []);
  started_at = now;
  transport = transport_default;
  clients = [];
  rate_limited_ips = [];
  slow_query_log = [];
  error_log = [];
}

abbrev pub Metrics : Type 0
Metrics = Dict Text StoreMetrics

-- `_get_store`
unfoldable pub get_store : ℕ → Text → Metrics → StoreMetrics
unfolding store_default
get_store now name m = elim (Dicts.get name m) [ none ↦ store_default now | some sm ↦ sm ]

-- `append` of a `deque(maxlen=50)`
unfoldable push : {A : Type 0} → A → List A → List A
push a entries = drop (length (entries ++ (a ∷ [])) - 50) (entries ++ (a ∷ []))

-- Any transport but these two counts as `http`.
unfoldable pub transport_of : Text → Text
transport_of t =
    if test (text_discrete t (codes "http")) || test (text_discrete t (codes "socket"))
    then t
    else codes "http"

abbrev pub counts_or_default : Option Counts → Counts
counts_or_default none = client_default
counts_or_default (some d) = d

-- One request in a dictionary of counts.
unfoldable pub bump_op : Op → ℕ → ℕ → Counts → Counts
unfolding bump field_of
bump_op op bytes_in bytes_out d =
    bump (codes "bytes_out") bytes_out (bump (codes "bytes_in") bytes_in (bump (field_of op) 1 d))

-- The counts at a key of a dictionary of them, made if they are not there.
unfoldable pub change_at : Text → (Counts → Counts) → Dict Text Counts → Dict Text Counts
change_at k f d = put k (f (counts_or_default (Dicts.get k d))) d

-- A request without a client is counted for none.
unfoldable change_client : Text → (Counts → Counts) → Dict Text Counts → Dict Text Counts
unfolding change_at
change_client [] f d = d
change_client (c ∷ client) f d = change_at (c ∷ client) f d

abbrev log_error : Op → ErrorEntry → Text → List ErrorEntry → List ErrorEntry
log_error error entry (c ∷ message) log = push entry log
log_error op entry message log = log

pub record Request : Type 0 where
  pub op : Op
  pub client_key : Text
  pub bytes_in : ℕ
  pub bytes_out : ℕ
  pub transport : Text
  pub error_msg : Text

unfoldable pub record_in : ℕ → Request → StoreMetrics → StoreMetrics
unfolding bump_op change_at change_client push transport_of
record_in now r sm = record sm {
  counts = bump_op r.op r.bytes_in r.bytes_out sm.counts;
  transport =
      change_at (transport_of r.transport) (bump_op r.op r.bytes_in r.bytes_out) sm.transport;
  clients = change_client r.client_key (bump_op r.op r.bytes_in r.bytes_out) sm.clients;
  error_log =
      log_error r.op
        (record { ts = now; message = r.error_msg; client = r.client_key; transport = r.transport })
        r.error_msg sm.error_log;
}

-- `record`
unfoldable pub record_request : ℕ → Text → Request → Metrics → Metrics
unfolding record_in get_store
record_request now [] r m = m
record_request now (c ∷ name) r m = put (c ∷ name) (record_in now r (get_store now (c ∷ name) m)) m

-- `record_slow_query`
unfoldable pub slow_in : SlowEntry → StoreMetrics → StoreMetrics
unfolding bump push
slow_in entry sm = record sm {
  counts = bump (codes "slow_queries") 1 sm.counts;
  slow_query_log = push entry sm.slow_query_log;
}

unfoldable pub record_slow_query : ℕ → Text → SlowEntry → Metrics → Metrics
unfolding slow_in get_store
record_slow_query now [] entry m = m
record_slow_query now (c ∷ name) entry m =
    put (c ∷ name) (slow_in entry (get_store now (c ∷ name) m)) m

-- `record_rate_limited`
unfoldable pub limited_in : Text → Text → StoreMetrics → StoreMetrics
unfolding bump change_at transport_of
limited_in ip transport sm = record sm {
  counts = bump (codes "rate_limited") 1 sm.counts;
  rate_limited_ips = bump ip 1 sm.rate_limited_ips;
  transport = change_at (transport_of transport) (bump (codes "rate_limited") 1) sm.transport;
  clients = change_at ip (bump (codes "rate_limited") 1) sm.clients;
}

unfoldable pub record_rate_limited : ℕ → Text → Text → Text → Metrics → Metrics
unfolding limited_in get_store
record_rate_limited now [] ip transport m = m
record_rate_limited now (c ∷ name) ip transport m =
    put (c ∷ name) (limited_in ip transport (get_store now (c ∷ name) m)) m

-- `get_store_metrics`
unfoldable get_store_metrics : ℕ → Text → Metrics → StoreMetrics
unfolding get_store
get_store_metrics now name m = get_store now name m

-- `reset_store_metrics`
unfoldable pub reset_store_metrics : ℕ → Text → Metrics → Metrics
unfolding store_default
reset_store_metrics now name m = if contains name m then put name (store_default now) m else m
