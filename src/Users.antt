-- ===== src/Users.antt =====
-- src/users.c: a user process. The modules below have its state, the balance that it computes from
-- the ledger, the transactions that it sends, and its main loop and signal handlers.
pub mod State
pub mod Wallet
pub mod Sending
pub mod Handlers
pub mod Cycle
pub mod Signals
