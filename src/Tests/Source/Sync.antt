-- ===== src/Tests/Source/Sync.antt =====
-- The unit tests of src/sync.rs. A `Cursor` is a source with all its bytes in its buffer; its position is told
-- by what is left.
use Prim.Native.String.{String}
use mpd_protocol.Prelude.{
  ◌≡◌, refl, Bool, true, false, ◌&&◌, equal, Option, none, some, [], ◌++◌, Bytes, codes,
}
use mpd_protocol.Std.Utf8.{Str, from_utf8, as_bytes, encode_char}
use mpd_protocol.Errors.{io}
use mpd_protocol.Nom.Reference
use mpd_protocol.Nom.Reference.{nom}
use mpd_protocol.BytesMut.{list_bytes}
use mpd_protocol.Crates.{reference}
use mpd_protocol.Interner.{intern_key}
use mpd_protocol.Parser.{parse, greeting}
use mpd_protocol.Frame.{find}
use mpd_protocol.Response.{Response, single_frame, successful_frames, next}
use mpd_protocol.Response as Responses
use mpd_protocol.Builder as Builder
use mpd_protocol.Builder.{ParseResult, new, on_field, finish, is_frame_in_progress, parse_buffer}
use mpd_protocol.Command as Commands
use mpd_protocol.Command.{Command, Outcome, build, str_argument, argument, ◌>>=◌}
use mpd_protocol.Command.Render.{render_list}
use mpd_protocol.Equality.{same, response_eq}
use mpd_protocol.Sync.{receive}
use mpd_protocol.Sync.BufRead.{Reader, fill_buf, stream}
use mpd_protocol.Sync.Connect as Sync
use mpd_protocol.Sync.Connect.{ConnectResult, connected, Write, send}
use mpd_protocol.Tests.Io.{position}
use mpd_protocol.Tests.Source.{is_text}

abbrev cursor : String → Reader
cursor text = record { buffered = codes text; fills = [] }

abbrev is_connected : ConnectResult → String → Bool
is_connected (connected version) text = is_text version text
is_connected _ text = false

abbrev is_none : ParseResult → Bool
is_none (Builder.ok none) = true
is_none _ = false

abbrev returns : ParseResult → Response → Bool
returns (Builder.ok (some r)) r' = same r r'
returns _ r' = false

abbrev pub is_io_error : ParseResult → Bool
is_io_error (Builder.err (io e)) = true
is_io_error _ = false

-- `single_frame().unwrap()`, and the value of a key in it
abbrev pub single_find : String → ParseResult → Option Str
single_find key (Builder.ok (some r)) = elim (single_frame r) [
  | some (Responses.ok f) ↦ find (codes key) f
  | some (Responses.err e) ↦ none
  | none ↦ none
]
single_find key _ = none

abbrev pub is_value : Option Str → String → Bool
is_value (some v) text = is_text v text
is_value none text = false

abbrev read : Bool
read =
    let buf = cursor "OK MPD 0.22.0\nOK\nfoo: bar\nOK\n" in
    let (version, buf1) = Sync.connect nom buf in
    let (first, buf2) = receive reference position buf1 in
    let (second, buf3) = receive reference position buf2 in
    let (third, _) = receive reference position buf3 in
    is_connected version "0.22.0"
    && is_text (stream buf1) "OK\nfoo: bar\nOK\n"
    && returns first Responses.empty
    && is_text (stream buf2) "foo: bar\nOK\n"
    && is_value (single_find "foo" second) "bar"
    && is_text (stream buf3) ""
    && is_none third

read_passes : read ≡ true
unfolding Sync.connect receive single_frame find greeting Reference.tag Reference.take_while
    Reference.take_while1 Reference.char from_utf8 fill_buf parse_buffer is_frame_in_progress
    on_field finish parse intern_key equal
read_passes = refl

-- A writer that keeps what is written behind what it has.
abbrev vec : Write Bytes
vec = record { write_all = λ out bytes. (none, out ++ bytes) }

abbrev sends : Outcome Command → Bytes → String → Bool
sends (Commands.ok c) out text = is_text (send list_bytes vec out c).1 text
sends _ out text = false

-- The cursor stands at the end of the greeting once it is read, so what is written goes behind it.
abbrev write : Bool
write =
    let (version, rest) = Sync.connect nom (cursor "OK MPD 0.22.0\n") in
    let playid : Outcome Command =
      (Commands.new (codes "playid") >>= λ c. argument str_argument c (codes "3")) in
    is_connected version "0.22.0"
    && is_text (stream rest) ""
    && sends playid (codes "OK MPD 0.22.0\n") "OK MPD 0.22.0\nplayid 3\n"

write_passes : write ≡ true
unfolding Sync.connect send render_list Commands.new argument greeting Reference.tag
    Reference.take_while Reference.take_while1 Reference.char from_utf8 as_bytes encode_char equal
write_passes = refl

abbrev eof : Bool
eof =
    is_none (receive reference position (cursor "")).0
    && is_io_error (receive reference position (cursor "foo: bar\n")).0
    && is_io_error (receive reference position (cursor "foo: bar")).0

eof_passes : eof ≡ true
unfolding receive Reference.tag Reference.take_while Reference.take_while1 Reference.char from_utf8
    fill_buf parse_buffer is_frame_in_progress on_field parse intern_key equal
eof_passes = refl
