-- ===== src/Moves.antt =====
-- lib/sessionkit_inventory/account_guard.py: when a conversation may be moved to another account.
mod Usage
mod Blocks
mod Plan
mod Sorted
mod Safe
mod Justified
mod Once
mod Tests
