-- ===== src/Store.antt =====
-- What the node keeps: badger's database and transactions (vendor/github.com/dgraph-io/badger) and
-- the memory cache (vendor/github.com/patrickmn/go-cache), which are parameters, and what the
-- program puts into them.
mod Defs
mod Assoc
mod Tests
pub mod Records
pub mod Paging
pub use Defs.*
unfoldable pub use Assoc.{assoc_stores, lookup, without, entries, latest}
pub use Assoc.{assoc_IsStore, assoc_IsCache}
