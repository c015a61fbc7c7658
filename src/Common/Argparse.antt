-- ===== src/Common/Argparse.antt =====
-- The command line of Python's `argparse`, for a parser with no positional arguments whose options
-- take one value or several, set a flag, or print a text and leave. All arguments are sorted before
-- the first action is taken.
pub mod Sorts
pub mod Events
pub mod Items
unfoldable pub use Sorts.*
unfoldable pub use Events.*
