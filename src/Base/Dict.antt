-- ===== src/Base/Dict.antt =====
-- `HashMap<String, V>`. The order of the entries stands for the order in which the map happens to
-- be iterated: a new key goes to the end, and a key that is there keeps its place.
mod Defs
mod Laws
mod Map
mod Entries
mod Unique
pub use Defs.{Dict}
unfoldable pub use Defs.{empty, lookup, get, insert, remove, modify, keys, values, map_values}
pub use Laws.*
pub use Map.*
pub use Entries.*
pub use Unique.*
