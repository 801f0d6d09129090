-- ===== src/Python.antt =====
-- The parts of Python's standard library that the tools use: `str`, `re` and `os.path`.
pub mod Str
pub mod Regex
pub mod Path
