-- ===== src/Cpplint/Cleanse.antt =====
-- The cleansing of lines in tools/cpplint/cpplint.py.
mod Tests
pub mod RawStrings
pub mod Comments
pub mod Collapse
pub mod Lines
