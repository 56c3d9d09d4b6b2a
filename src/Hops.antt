-- ===== src/Hops.antt =====
-- lib/sessionkit_inventory/account_guard.py: the ledger of automatic account moves.
pub mod Ledger
pub mod Operations
mod Single
mod Calls
pub mod Worked
pub mod Settled
pub mod Committed
mod Final
mod Release
mod Notices
mod Pending
mod Queued
mod Tests
