-- ===== src/Go.antt =====
-- What the program uses of Go's standard library (strings, bytes, path, unicode/utf8), over `Bytes`.
pub mod Sort
pub mod Space
pub mod Number
pub mod Loop
pub mod Text
pub mod Utf8
pub mod Fold
pub mod Path
pub mod Lines
