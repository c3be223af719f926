-- ===== src/Lib.antt =====
-- A model of the core of MkDB, a document database: what happens to a record between a call of the
-- store and the bytes on disk, and how records are searched and served.
--
-- A write puts a delta into the record cache (mkdb/db/cache/ram_cache.py) and into the write queue
-- (mkdb/db/cache/write_queue.py). The queue's worker hands each delta to the store
-- (mkdb/db/objects/store.py), which reads the old record, merges the delta into it
-- (mkdb/objects/__init__.py), turns the record into a line (mkdb/db/storage/serializer.py), appends
-- the line to a rolling log (mkdb/db/storage/log_manager.py) or, if it is large, writes a blob
-- (mkdb/db/storage/blob_store.py), and sets the place in the index
-- (mkdb/db/storage/index_manager.py). Compaction (mkdb/db/maintenance/compactor.py) rewrites a
-- segment of the log without its dead lines. The dashboard keeps a ring of events
-- (mkdb/server/event_log.py).
--
-- A query goes to the query engine (mkdb/db/query/query_engine.py), which evaluates a filter over
-- the ids of the index manager: by reading every record, or by the indexes that it keeps for some
-- fields, of words (mkdb/db/query/full_text_index.py, with mkdb/db/query/tokenizer.py) or of
-- numbers (mkdb/db/query/numeric_index.py). The servers reach the stores through the actions of
-- mkdb/server/coms/actions.py, which count requests in mkdb/server/coms/metrics.py, behind the guards
-- of mkdb/server/coms/http_handlers.py and mkdb/server/coms/socket.py.
--
-- Reads and queries can also go to a pool of workers: the dispatcher
-- (mkdb/db/query_workers/dispatcher.py) puts a task (task.py) on a queue, a worker (worker.py) answers
-- it from its own cache and its own view of the index, and a router brings the result to its waiter.
-- The store tells the workers of each write and deletion. A segment of the log that is full is sealed
-- with a parity file (mkdb/db/parity/parity_manager.py), from which it is repaired when the store is
-- set up; the scheduler (mkdb/db/maintenance/task_scheduler.py) asks for compactions.
--
-- Files, each with the proofs in the folder of its name:
--   Base: lists over native numbers, `dict` as an association list in insertion order, texts as
--     lists of character codes, `str.strip`, lines of a file, `int` and number formatting, exceptions
--     as values.
--   Json: JSON values, and the operations of a `dict` of them.
--   Objects: `deep_update`, `partition_object`, `compact_object` of mkdb/objects/__init__.py.
--   Cache: `RamCache`; one function for each method, `shrink` for the loop of `set`.
--   Index: `IndexManager`, with the text of its file; `load_lines` is the loop of `load`, and Bootstrap
--     is `_bootstrap_from_logs`.
--   Codec: UTF-8 and the module `json`, which are parameters, with the laws that the code relies on.
--   Serializer: `serialize_record`, `deserialize_record`.
--   Log: `LogManager` over the files of the store's directory, by their names.
--   Blob: `write_blob`.
--   Disk: `store._write_to_storage`, and what `store.read` does behind the cache.
--   Compactor: `Compactor`; `copy_each` is the loop that copies the live records.
--   WriteQueue: `WriteQueue`; a round of `_worker_loop` is two turns, `begin` and `take_task`, between
--     which other threads may call, and `run` is any list of turns. The handlers are parameters, and
--     Traced puts down the tasks that they are handed.
--   Store: `write`, `read` and the storage part of `delete` of `store`, over cache, queue and storage
--     as one state. Backend has the handlers of the write queue, with query indexes, parity files and
--     workers; Service has the whole store, with `setup`, `delete`, `query`, `teardown` and
--     `generate_id`, whose loop runs on fuel, one for each token length.
--   Workers: the query workers; LocalCache is `_WorkerCache`, Resolve `_resolve` and its functions, Loop
--     `_worker_loop` over the turns that its queues give. In Coherent the writing process and one worker
--     are a step relation.
--   Dispatcher: `QueryDispatcher`; a wait is split into what stands before it and behind it.
--   Parity: `ParityManager`; the package `reedsolo` is a parameter with its documented laws, and the
--     chunks are cut with as much fuel as there are bytes.
--   Scheduler: `TaskScheduler._run_checks`.
--   Access: the guards of the HTTP data plane and the permission checks of the socket server.
--   EventLog: `emit`, `get_events`.
--   Tokenizer: `tokenize`; `str.lower` is a parameter.
--   Postings, IndexFile: the sets of ids by key that both indexes keep, and the lines of their files.
--   FullText: `FullTextIndex`, in memory and on disk.
--   Numeric: `NumericIndex`; `prefix` on a sorted list is what `bisect` computes. Floats are a parameter,
--     whose order is linear where a theorem says so.
--   Query: `QueryEngine`. Values has Python's comparisons, Scan `_full_scan_filter`, Eval
--     `_eval_logic_block`, `_eval_field` and `_text_match`, Pages the rest of `query`, Upkeep the
--     building and updating of the indexes. What the engine asks of its store is the record `Source`.
--   Metrics: `record`, `record_slow_query`, `record_rate_limited`, `reset_store_metrics`.
--   Actions: `execute`; Steps has what an action works on, with exceptions, and the interface
--     `StoreOps` of a store.
--   Protocol: `encode_message`, `read_frame`; a socket is the list of the pieces that arrive.
--   Builder: `Q` and `FieldProxy` of client/mkdb_client/query_builder.py.
--   Tests: the main theorems at concrete inputs.
--
-- Methods that hold a lock from start to end are one step. Clock readings are arguments, and
-- natural numbers. The eviction loop of `Cache.set` runs on as much fuel as there are entries, and
-- the theorems on `shrink` and `set` show that it does not run out; the digits of a number are
-- computed with as much fuel as the number is large. `_recv_exact` runs on as much fuel as bytes
-- are missing, which the round trip of a message shows to be enough. Every other loop is a
-- structural recursion. A raised exception is a value without its message, and without the state
-- that it leaves, but in Actions, where it has both, and in the handlers of the write queue, which
-- give the state. A Python `set` is a list of which only the
-- members count. Texts hold only characters that UTF-8 can encode, and text files are written with
-- "\n" as it stands.
--
-- Not modelled: files that cannot be written or read, but for the query indexes and the parity
-- files in the handlers of the write queue, whose failures are the parameter `Faults` there;
-- processes, threads, sockets and HTTP themselves; the query engine inside a query worker, which
-- is an interface there; the time limit of a query; the handshake, the subscriptions and the
-- heartbeats of the socket server; the routes of the HTTP servers and their rate limit for each
-- store, the same counter with another key; the dashboard, the configuration classes and the rest
-- of the clients.
pub mod Access
pub mod Base
pub mod Json
pub mod Objects
pub mod Cache
pub mod Index
pub mod Codec
pub mod Serializer
pub mod Log
pub mod Blob
pub mod Disk
pub mod Compactor
pub mod Scheduler
pub mod Parity
pub mod Dispatcher
pub mod Workers
pub mod WriteQueue
pub mod Store
pub mod Tokenizer
pub mod Postings
pub mod IndexFile
pub mod FullText
pub mod Numeric
pub mod Query
pub mod Metrics
pub mod Actions
pub mod Protocol
pub mod Builder
pub mod EventLog
pub mod Tests
