-- ===== src/Json.antt =====
-- src/json.rs: JSON values, the reader, the writer and the conversions. A text or a string is the list
-- of its UTF-8 bytes. Floating-point numbers are a parameter. A `BTreeMap` is the list of its entries
-- in the order of their keys.
pub mod Value
pub mod Reader
pub mod Strings
pub mod Convert
pub mod Writer
mod Examples
