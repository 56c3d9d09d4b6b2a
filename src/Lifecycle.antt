-- ===== src/Lifecycle.antt =====
-- lib/sessionkit_inventory/lifecycle.py: deliberate closes, and the record of a provider's exit.
pub mod Intents
mod Closed
pub mod Exits
mod Agrees
mod Blockers
mod Tests
