-- ===== src/Go.antt =====
-- What the program uses of the Go language and its standard library: bit operations on bytes, and
-- the packages `net`, `strconv` and `strings`.
pub mod Bits
pub mod Strings
pub mod Strconv
pub mod Net
mod Tests
