-- ===== src/Validation.antt =====
-- lib/sessionkit_inventory/validation.py: which inventories an action may be based on.
mod Guard
mod Strict
mod Adds
mod Counted
mod Unique
mod Exact
mod Tests
