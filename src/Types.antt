-- ===== src/Types.antt =====
-- commons/types: the records that the nodes exchange and store.
pub mod Errors
mod Tests
pub mod Json
pub mod Constants
pub mod Rumor
pub mod Authentication
pub mod Receipt
pub mod Transaction
pub mod Account
pub mod Gossip
pub mod Node
pub mod Page
pub mod Endpoint
