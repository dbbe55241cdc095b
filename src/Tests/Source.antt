-- ===== src/Tests/Source.antt =====
-- The unit tests of the program, run on the definitions: each is a Boolean, the conjunction of its asserts, with
-- the reference implementations for the crates. A value that is mutated is passed on; an `unwrap` that
-- panics makes the test false.
mod Command
mod Parser
mod Frame
mod Response
mod Builder
mod Sync
mod Codec
use Prim.Native.String.{String}
use mpd_protocol.Prelude.{Bool, equal, Bytes, codes}

abbrev pub is_text : Bytes → String → Bool
is_text s t = equal s (codes t)
