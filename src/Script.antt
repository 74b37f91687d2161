-- ===== src/Script.antt =====
-- builtin/number.go: the arithmetic of the scripts on values of the basic kinds.
pub mod Words
pub mod Numbers
pub mod Wrap
pub mod Inverse
pub mod Comparisons
mod Tests
