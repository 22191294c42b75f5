-- ===== src/Common.antt =====
-- The names that the other modules share: the libraries', passed on, texts as byte lists, and
-- keyed tables. Options, which has another `>>=` than the code with a state, is used by name.
mod Basics
mod Texts
mod Lists
mod Tables
mod State
pub mod Options
unfoldable pub use Basics.*
unfoldable pub use Texts.*
unfoldable pub use Lists.*
unfoldable pub use Tables.*
pub use State.*
