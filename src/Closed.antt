-- ===== src/Closed.antt =====
-- lib/sessionkit_inventory/closed_sessions.py: the ledger of sessions that were closed on purpose.
mod Ledger
mod Listing
mod Kept
mod Shown
mod Written
mod Forgotten
mod Known
mod Command
mod Entered
mod Handed
mod Tests
mod Runs
