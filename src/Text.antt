-- ===== src/Text.antt =====
-- What the program uses of Go's text handling: regular expressions, numbers, dates, control
-- characters. A text is valid UTF-8 here, as it is after `encoding/json` has decoded it.
pub mod Chars
pub mod Decimal
pub mod Date
pub mod Timestamp
