-- ===== src/Query.antt =====
-- The query engine, mkdb/db/query/query_engine.py: the class `QueryEngine`.
pub mod Values
pub mod Scan
pub mod Eval
pub mod Pages
pub mod Upkeep
pub mod Meaning
pub mod Answers
pub mod Indexed
pub mod Limits
