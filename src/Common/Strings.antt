-- ===== src/Common/Strings.antt =====
-- Go strings as lists of bytes, with the functions of package strings that the program calls.
mod Defs
mod Laws
unfoldable pub use Defs.*
pub use Laws.*
