-- ===== src/Tests/Servers.antt =====
-- Tests of the metrics and the actions: one store that raises on a read.
use mk_db.Base.{text_key, codes, []}
use mk_db.Json.{null}
use mk_db.Metrics
use mk_db.Metrics.{
  Request, SlowEntry, record_request, record_slow_query, record_rate_limited, reset_store_metrics,
  get_store,
}
use mk_db.Metrics.Balance.{AllBalanced, no_store-AllBalanced, metrics-AllBalanced}

abbrev get_request : Request
get_request = record {
  op = Metrics.read;
  client_key = codes "ann";
  bytes_in = 0;
  bytes_out = 8;
  transport = codes "socket";
  error_msg = [];
}

abbrev slow : SlowEntry
slow = record {
  ts = 1;
  duration_ms = null;
  filter = null;
  result_count = 0;
  client = codes "ann";
  transport = codes "http";
}

metrics-AllBalanced_example :
    AllBalanced []
    × (AllBalanced (record_request 1 (codes "s") get_request [])
        × (AllBalanced (record_slow_query 1 (codes "s") slow [])
            × (AllBalanced (record_rate_limited 1 (codes "s") (codes "ip") (codes "http") [])
                × AllBalanced (reset_store_metrics 1 (codes "s") []))))
metrics-AllBalanced_example =
    metrics-AllBalanced 1 (codes "s") (codes "ip") (codes "http") get_request slow []
      no_store-AllBalanced
