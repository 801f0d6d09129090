-- ===== src/Cpplint/Language.antt =====
-- The checks of tools/cpplint/cpplint.py that CheckLanguage calls, and CheckForNonConstReference.
pub mod Includes
pub mod Printf
pub mod Casts
pub mod Globals
pub mod Arrays
pub mod Rules
pub mod References
mod Tests
