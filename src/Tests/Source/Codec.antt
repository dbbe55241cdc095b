-- ===== src/Tests/Source/Codec.antt =====
-- The unit tests of src/codec.rs. A mock gives its reads one by one; `Framed` is the caller of the decoder in
-- `Codec/Calls`.
use Prim.Native.String.{String}
use mpd_protocol.Prelude.{
  suc, ◌+◌, ◌≡◌, refl, Bool, true, false, ◌&&◌, ◌==◌, equal, some, List, [], ◌∷◌, length, Bytes,
  codes,
}
use mpd_protocol.Std.Utf8.{from_utf8, as_bytes, encode_char}
use mpd_protocol.Nom.Reference
use mpd_protocol.Nom.Reference.{nom}
use mpd_protocol.Crates.{reference}
use mpd_protocol.Interner.{intern_key}
use mpd_protocol.Parser.{parse, greeting}
use mpd_protocol.Frame.{find}
use mpd_protocol.Response.{single_frame, successful_frames}
use mpd_protocol.Builder as Builder
use mpd_protocol.Builder.{ParseResult, new, on_field, finish, is_frame_in_progress, parse_buffer}
use mpd_protocol.Command as Commands
use mpd_protocol.Command.{Command, Outcome, build, str_argument, argument, ◌>>=◌}
use mpd_protocol.Command.Render.{CommandList, render_list}
use mpd_protocol.Command.Render as Render
use mpd_protocol.Equality.{response_eq}
use mpd_protocol.Codec.{MpdCodec, encode_list, decode, decode_eof}
use mpd_protocol.Codec as Codec
use mpd_protocol.Codec.Connect as Async
use mpd_protocol.Codec.Calls.{decode_stream, joined}
use mpd_protocol.Tests.Greeting.{pieces}
use mpd_protocol.Tests.Source.{is_text}
use mpd_protocol.Tests.Source.Sync.{is_io_error, single_find, is_value}

abbrev encodes : Outcome Command → String → Bool
encodes (Commands.ok c) text =
    is_text (encode_list reference (Codec.new reference []) (Render.new c) []) text
encodes _ text = false

abbrev encoder : Bool
encoder = encodes (build (codes "status")) "status\n"

encoder_passes : encoder ≡ true
unfolding build encode_list render_list as_bytes encode_char equal
encoder_passes = refl

-- The version, and the bytes that are left to read.
abbrev is_codec : Async.ConnectResult reference (List Bytes) → String → List Bytes → Bool
is_codec (Async.connected [] codec) text [] = is_text codec.protocol_version text
is_codec (Async.connected (s ∷ []) codec) text (s' ∷ []) =
    is_text codec.protocol_version text && equal s s'
is_codec _ text rest = false

abbrev connect : Bool
connect = is_codec (Async.connect reference pieces 2 (codes "OK MPD 0.21.11\n" ∷ [])) "0.21.11" []

connect_passes : connect ≡ true
unfolding Async.connect greeting Reference.tag Reference.take_while Reference.take_while1
    Reference.char from_utf8 equal
connect_passes = refl

-- The first result of the stream of responses, with fuel for every piece and byte.
abbrev all_results : MpdCodec reference → List Bytes → List ParseResult
all_results codec rest =
    decode_stream reference (suc (length (joined rest) + length rest)) codec [] rest

abbrev full_interaction : Bool
full_interaction =
    let reads = codes "OK MPD 0.21.11\n" ∷ codes "foo: bar\nOK\n" ∷ [] in
    answers (Async.connect reference pieces 2 reads)
  where
    is_answer : List ParseResult → Bool
    is_answer (Builder.ok (some r) ∷ results) =
        successful_frames r == 1 && is_value (single_find "foo" (Builder.ok (some r))) "bar"
    is_answer _ = false

    answers : Async.ConnectResult reference (List Bytes) → Bool
    answers (Async.connected rest codec) =
        is_text codec.protocol_version "0.21.11"
        && encodes (Commands.new (codes "status")) "status\n"
        && is_answer (all_results codec rest)
    answers _ = false

full_interaction_passes : full_interaction ≡ true
unfolding Async.connect Commands.new encode_list render_list as_bytes encode_char decode_stream
    decode decode_eof successful_frames single_frame find greeting Reference.tag
    Reference.take_while Reference.take_while1 Reference.char from_utf8 parse_buffer
    is_frame_in_progress on_field finish parse intern_key equal
full_interaction_passes = refl

-- What the first call of `next` gives on a connection with these reads.
abbrev first_result : List String → (List ParseResult → Bool) → Bool
first_result reads test = after (Async.connect reference pieces 2 (texts reads))
  where
    texts : List String → List Bytes
    texts [] = []
    texts (t ∷ ts) = codes t ∷ texts ts

    after : Async.ConnectResult reference (List Bytes) → Bool
    after (Async.connected rest codec) = test (all_results codec rest)
    after _ = false

abbrev ends : List ParseResult → Bool
ends [] = true
ends _ = false

abbrev fails_first : List ParseResult → Bool
fails_first [] = false
fails_first (result ∷ results) = is_io_error result

abbrev eof : Bool
eof =
    first_result ("OK MPD 0.21.11\n" ∷ []) ends
    && first_result ("OK MPD 0.21.11\n" ∷ "foo: bar\n" ∷ []) fails_first
    && first_result ("OK MPD 0.21.11\n" ∷ "foo: bar" ∷ []) fails_first

eof_passes : eof ≡ true
unfolding Async.connect decode_stream decode decode_eof greeting Reference.tag Reference.take_while
    Reference.take_while1 Reference.char from_utf8 parse_buffer is_frame_in_progress on_field parse
    intern_key equal
eof_passes = refl
