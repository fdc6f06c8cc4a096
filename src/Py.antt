-- ===== src/Py.antt =====
-- What the program uses of Python: exceptions, texts, numbers, dates, values and dictionaries.
pub mod Exc
pub mod Exec
pub mod Number
pub mod Time
pub mod Value
pub mod Path
