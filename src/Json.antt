-- ===== src/Json.antt =====
-- The values that a record holds: what `json.loads` returns, as the modules of mkdb/ pass them
-- about. A `dict` is the ordered list `Fields`; its operations are those of Python's `dict`.
pub mod Data
pub mod Entries
pub use Data.*
