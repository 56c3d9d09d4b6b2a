-- ===== src/Selection.antt =====
-- lib/sessionkit_inventory/common.py: the one grammar for session numbers that a person types.
pub mod Grammar
mod Set
mod Chosen
mod Accepts
mod Tests
