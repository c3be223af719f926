-- ===== src/Actions.antt =====
-- The actions that the HTTP and the socket server share, mkdb/server/coms/actions.py: `execute` and
-- the four functions behind it. A store is what the interface `StoreOps` says of it.
pub mod Steps
pub mod Execute
