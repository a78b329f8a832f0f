-- ===== src/Shell.antt =====
-- agent/src/codito_agent/shell.py: the output of a shell job and its paging. Children: `_append` and
-- the pages; what is kept of the output; reading by cursor.
pub mod Output
pub mod Kept
pub mod Reading
pub mod Written
pub mod Complete
