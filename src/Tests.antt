-- ===== src/Tests.antt =====
-- The theorems at concrete inputs, and runs of the definitions.
mod Data
mod Ledger
mod Race
mod Lists
mod Ipc
mod Wallet
mod Master
mod Startup
mod Nodes
mod Children
mod Parser
mod Sending
mod Cycle
mod Economy
mod Signals
mod Print
