-- ===== src/Terminal.antt =====
-- lib/sessionkit_inventory/terminal.py: the numbering of terminals.
mod Keys
pub mod Quarantine
mod Registry
mod Number
mod Rows
mod Free
mod Choices
mod Steps
mod Distinct
mod Bindings
mod Entitled
mod Bounds
mod Prefixes
mod Continuity
mod Retire
mod Errors
mod Validator
mod Tests
