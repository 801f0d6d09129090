-- ===== src/Cpplint/Style.antt =====
-- The checks of tools/cpplint/cpplint.py that look at one line and the lines around it, by the functions
-- that ProcessLine calls. Each takes a line of the file, and any handler of errors.
mod Tests
pub mod Operators
pub mod Spacing
pub mod Types
pub mod Width
pub mod Braces
pub mod Semicolons
pub mod EmptyBlocks
pub mod Macros
pub mod Rules
pub mod Lines
pub mod Inheritance
pub mod Constructs
pub mod Calls
pub mod Comments
pub mod Blanks
