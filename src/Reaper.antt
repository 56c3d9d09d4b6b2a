-- ===== src/Reaper.antt =====
-- lib/sessionkit_inventory/reaper.py: which terminals an automatic close may take.
mod Candidates
mod Plan
mod Due
mod Observed
mod Listed
mod Closes
mod Tests
