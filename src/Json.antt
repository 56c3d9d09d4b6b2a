-- ===== src/Json.antt =====
-- JSON values as `json.loads` gives them, and the tests that the Python code makes on them.
mod Data
mod Equal
unfoldable pub use Data.*
unfoldable pub use Equal.*
