-- ===== src/Py.antt =====
-- What the scripts use of Python: exceptions, texts, regular expressions and dictionaries.
pub mod Result
pub mod Text
pub mod Regex
pub mod Dict
pub mod Codes
pub mod Decimal
pub mod Num
pub mod Sort
