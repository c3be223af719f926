-- ===== src/Json/Entries.antt =====
-- `dict` as the values of a record: the operations and their laws.
pub mod Defs
pub mod Laws
unfoldable pub use Defs.{get, put, remove, update, contains}
pub use Laws.*
