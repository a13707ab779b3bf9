-- ===== src/Dapos.antt =====
-- dapos: the consensus of the delegates and the execution of transactions (dapos/dapos_handshake.go).
pub mod Run
mod Tests
pub mod Dvm
pub mod Execute
pub mod Ledger
pub mod Gossip
pub mod Worker
pub mod Api
pub mod Synchronize
pub mod Genesis
pub mod Steps
pub mod Peers
