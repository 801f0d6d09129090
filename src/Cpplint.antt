-- ===== src/Cpplint.antt =====
-- tools/cpplint/cpplint.py, the style checker that tools/checkstyle.sh runs over the C++ files.
pub mod State
pub mod Categories
pub mod Suppress
pub mod Report
pub mod Includes
pub mod Expression
pub mod Cleanse
pub mod Files
pub mod Functions
pub mod Guard
pub mod Config
pub mod Driver
pub mod WholeFile
pub mod Nesting
pub mod Style
pub mod Language
