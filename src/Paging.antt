-- ===== src/Paging.antt =====
-- internal/http/queryparams: the parameters of list requests.
pub mod Defs
pub mod Bounds
pub mod Entries
mod Tests
