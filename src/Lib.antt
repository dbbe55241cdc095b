-- ===== src/Lib.antt =====
-- A verification of `mpd_protocol`, the client side of the protocol of the Music Player Daemon: how
-- commands are checked, escaped and written, and how the server's responses are parsed and
-- assembled. Rust paths are given from the repository's root.
--
-- Commands go one way and responses the other. `src/command.rs` turns texts into `Command`s and
-- `CommandList`s and renders them into a buffer. `src/parser.rs` recognises one message at the start
-- of a buffer: a field, a binary section, an error or one of two end markers.
-- `ResponseBuilder` in `src/response.rs` calls it in a loop over the buffer that the IO layers fill,
-- and assembles a `Response` of frames (`src/response/frame.rs`), interning the keys of fields.
--
-- Which file models which part:
--   Command              `Command`, `CommandError`, the validation and escaping functions, `Argument`,
--                        and `Command::{new, build, argument, add_argument}`
--   Command/Duration     `Argument` for `Duration`, over floating-point numbers as a parameter
--   Command/Render       `CommandList` and the `render` methods
--   Parser               `ParsedComponent`, `RawError` and the grammar; `error` is `parse_error` and
--                        `binary_field` is `parse_binary_field` here
--   Frame                `Frame`, `FieldsContainer`, `Fields`, `IntoIter`
--   Response             `Response` and `Frames`, with `FramesRef` in `Response/Borrowed`
--   Interner/Defs        `InternedKeys` and `intern_key`
--   Builder              `ResponseBuilder`, `ResponseState`; `field`, `binary` and `error` are
--                        `on_field`, `on_binary` and `finish_error` here
--   Sync                 `read_until` and `receive` of `src/sync.rs`, with `std::io::BufRead` in
--                        `Sync/BufRead`
--   Sync/Connect         `connect`, `send` and `send_list`, with `BufRead::read_until` and `Write`
--   Sync/Safe            the fuzz target `fuzz/fuzz_targets/sync_receive.rs`
--   Codec                `MpdCodec` of `src/codec.rs`: `encode`, `decode` and `decode_eof`
--   Codec/Connect        `MpdCodec::connect`, over any `AsyncRead`
--   Errors               `MpdProtocolError` of `src/lib.rs`
--   Equality             the `PartialEq` implementations that the program derives
--   Tests/Source         the program's unit tests, as definitions that are checked to hold
--   Format               the `Display` and `Debug` implementations, over `std::fmt` as a parameter
-- The other modules under these are about their parent. `Parser/Wire` describes the wire format
-- without the parser, `Builder/Abstract` what a sequence of messages replies, without the builder,
-- `Builder/Encode` and `Builder/Print` how a server spells a reply, and `Command/Escape/Scanner` a
-- reader of command lines, chosen for the escapes of `escape_argument`. The server itself is a parameter:
-- `Command/Requests` reads the bytes that a client sends in lines and in lists between their markers, with
-- any reader of words (`Tokenizer`); `Command/Requests/Spelling` states what the protocol documents of that
-- reader (`TokenizerLaws`): a name, and arguments behind one blank each, which stand as they are or between
-- double quotes, where a backslash takes the next character. No law is assumed of a word that has quotes or
-- backslashes outside double quotes. `escape_argument_internal` writes an argument in that way if it has one
-- of these characters and no blank, so such arguments are not covered there. `Sync/Exchange` has both
-- directions: lists are sent, the server, which has a state of its own, answers what it reads, and the
-- replies are received; `Codec/Exchange` does so over the codec. `Frame/Multimap` is a map from keys to queues. The wire format lets a field have the
-- key `binary`; the parser takes it for a binary section, so completeness leaves that key out
-- (`Unambiguous`).
--
-- What the program takes from elsewhere is modelled as follows. `Std` holds what is used of Rust's
-- strings and numbers: a `str` is the list of its characters, and `as_bytes`, `from_utf8` and
-- `parse::<u64>` are written out. The crates are parameters: `Nom/Laws` (`nom`'s streaming
-- combinators), `BytesMut` (`bytes`, as operations on a buffer's contents) and `Interner/HashSet`
-- (`hashbrown`) are records of operations, with records of the laws that their documentation states.
-- Each has a reference implementation that satisfies the laws (`Nom/Reference`, `list_bytes`,
-- `list_set`), and `Crates` puts them together. The laws of `nom` and of `bytes` determine the
-- operations (`Nom/Unique`, `BytesLaws_unique`), so proofs go through at the reference. `memchr` is
-- a function with its laws in `Sync/Stream`.
--
-- Errors, panics and side effects are values: `&mut` arguments are returned, `Outcome` is a `Result`
-- or a panic, and `ParseResult` adds the panics of the parse loop (arithmetic and cuts out of range).
-- `usize` and `u64` have 64 bits. A buffer is shorter than 2^64 - 1 bytes where a theorem says so; the
-- sum `data_length + 1` fits then. The parse loop runs on fuel, one more than the buffer's length:
-- each round takes at least one byte. The loop of `read_until` takes two more than the results that
-- the source will give, since each round takes the buffer or one result; the loop of `receive` takes
-- one more than the bytes to come, since each round but the last reads a byte. Interned keys are
-- addresses handed out in increasing order. A `BufRead` source (`Reader`) has finitely many results,
-- each bytes, an interruption or a failure, and then the end of the file for ever; a source that is
-- interrupted without end, on which the loop of `read_until` in `src/sync.rs` would not end, is not
-- expressed.
--
-- `MpdCodec::connect` runs on fuel too, one for each read; `Codec/Connect/Returns` says how much is
-- enough, and `Codec/Connect/Pieces` when none is. Its `Framed` is the IO object and the codec.
--
-- Not modelled: logging, what is derived but comparison (cloning, hashing, `Debug`), the benchmark,
-- and the `Framed` that drives the codec, a type of `tokio_util`; `Codec/Calls` is a caller of the
-- decoder that keeps to the contract of the trait `Decoder`. A `Duration` argument formats a
-- floating-point number: the conversion and the formatting are parameters of `Command/Duration`, with
-- laws that say that the conversion is nearly exact, as operations that round to 53 bits are, and that
-- the formatting rounds to nearest.
pub mod Prelude
pub mod Std
pub mod Nom
pub mod Interner
pub mod Parser
pub mod BytesMut
pub mod Crates
pub mod Frame
pub mod Response
pub mod Equality
pub mod Errors
pub mod Builder
pub mod Command
pub mod Sync
pub mod Codec
pub mod Format
pub mod Tests
