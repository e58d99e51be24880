-- ===== src/Ffi.antt =====
-- Calls of the C library libnwep, which is not part of the repository: how nwep/src passes strings,
-- headers and bodies to it, and reads its results.
mod Strings
mod Calls
pub mod Clean
unfoldable pub use Strings.*
pub use Calls.*
