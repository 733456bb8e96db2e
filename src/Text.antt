-- ===== src/Text.antt =====
-- Go strings as sequences of bytes, and the functions of package strings and strconv that the
-- code calls. The children: comparison, trimming, splitting and decimal numbers.
mod Equal
pub mod Trim
pub mod Split
mod Number
pub mod Format
unfoldable pub use Equal.*
unfoldable pub use Trim.*
unfoldable pub use Split.*
unfoldable pub use Number.*
