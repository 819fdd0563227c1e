-- ===== src/Python.antt =====
-- What the program uses of Python itself: exceptions, `int`, `str`, `str.split`, `str.join`.
pub mod Error
pub mod Exec
pub mod Decimal
pub mod Split
