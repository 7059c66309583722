-- ===== src/Bits.antt =====
-- Machine words as native numbers: bit tests, and the laws of `&`, `|`, `^`, `!`, `<<` and `>>`.
mod Step
mod Test
mod Words
mod Fields
unfoldable pub use Test.{test_bit}
pub use Test.*
pub use Words.*
pub use Fields.*
