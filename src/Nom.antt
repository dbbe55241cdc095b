-- ===== src/Nom.antt =====
-- The parser combinators of the crate `nom` 6 that src/parser.rs uses, in their streaming form.
-- The crate is not part of the repository: its functions are the parameter `NomOps`, and
-- `NomLaws` states what its documentation promises of them.
pub mod Laws
pub mod Reference
pub mod Unique
