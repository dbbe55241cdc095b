-- ===== src/Std.antt =====
-- What the program uses of Rust's standard library: `str` and UTF-8, `str::parse` into 64-bit
-- numbers, and reference-counted strings.
pub mod Utf8
pub mod Number
pub mod Decimal
