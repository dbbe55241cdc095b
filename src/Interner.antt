-- ===== src/Interner.antt =====
-- Key interning: `InternedKeys` and `intern_key` of src/response.rs, over the crate `hashbrown`,
-- whose `HashSet` is a parameter.
pub mod HashSet
pub mod Defs
pub mod Sharing
pub use HashSet.{Arc, HashSetOps, HashSetLaws}
pub use Defs.{InternedKeys, no_keys}
unfoldable pub use Defs.{intern_key}
