-- ===== src/Origins.antt =====
-- lib/sessionkit_inventory/origins.py: who asked for a session, a person or a machine.
mod Stamps
mod Store
mod Bounce
mod Apply
mod Sound
mod Calls
mod Kept
mod Asked
mod Tests
