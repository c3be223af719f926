-- ===== src/Workers.antt =====
-- The query workers of a store, mkdb/db/query_workers/worker.py and task.py.
pub mod LocalCache
pub mod Task
pub mod Resolve
pub mod Loop
pub mod Coherent
pub mod Replies
