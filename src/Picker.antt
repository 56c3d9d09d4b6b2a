-- ===== src/Picker.antt =====
-- lib/sessionkit_tui: the picker's screen, as state and the events that change it.
mod Order
mod Model
mod Marks
mod Print
mod Digits
mod Written
mod Toggled
mod Matching
mod Held
mod Rows
mod Actions
mod State
mod Events
mod Panels
mod Enter
mod App
mod Leave
mod Ways
mod Left
mod Closing
mod Proved
mod Listed
mod Exact
mod Tests
