-- ===== src/Access.antt =====
-- Who may do what: the guards of the HTTP data plane, mkdb/server/coms/http_handlers.py, and the
-- permission checks of the socket server, mkdb/server/coms/socket.py. The hashing of passwords and
-- base64 are parameters.
pub mod Rates
pub mod Guards
pub mod Safety
pub mod Exclusive
