-- ===== src/Strings.antt =====
-- The functions of Go's packages strings, strconv, unicode and path/filepath that the program calls.
-- A text is a list of code points.
pub mod Ops
pub mod Words
pub mod Numbers
unfoldable pub use Ops.{contains}
pub use Ops.{◌⧺◌, less}
