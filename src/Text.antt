-- ===== src/Text.antt =====
-- Python's `str` as a list of code points and `bytes` as a list of numbers below 256, with the
-- methods that the source calls. Children: line splitting and UTF-8. No file of the repository
-- is modelled here; these are the language's own operations.
mod Basic
mod Lines
mod Utf8
mod Decodes
unfoldable pub use Basic.*
unfoldable pub use Lines.*
unfoldable pub use Utf8.*
unfoldable pub use Decodes.*
