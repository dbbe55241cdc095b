-- ===== src/Tests/Replies.antt =====
-- Replies as a server prints them, and sources that carry them.
use mpd_protocol.Prelude.{
  suc, ◌+◌, ◌<◌, ◌≡◌, ◌≢◌, refl, none, some, List, [], ◌∷◌, ◌++◌, arith, length, All, AllTest,
  Bytes, codes,
}
use mpd_protocol.Std.Utf8.{as_bytes, encode_char, from_utf8}
use mpd_protocol.Std.Number.{u64_max}
use mpd_protocol.Std.Decimal.{decimal, digits_within}
use mpd_protocol.Crates.{reference, reference-CratesLaws}
use mpd_protocol.Interner.HashSet.{list_set, list_set-HashSetLaws}
use mpd_protocol.Interner.{no_keys}
use mpd_protocol.Nom.Laws.{done}
use mpd_protocol.Nom.Reference.{nom, nom-NomLaws}
use mpd_protocol.Parser.{ParsedComponent, parse}
use mpd_protocol.Parser.Wire.{pair, IsLine, key_byte, Wire, Says, field_line, pair_bytes}
use mpd_protocol.Parser.Complete.{parse_complete, Unambiguous}
use mpd_protocol.Builder.{parse_buffer, new}
use mpd_protocol.Builder.Invariant.{initial-WellFormed}
use mpd_protocol.Builder.Abstract.{Reply, progress}
use mpd_protocol.Builder.Encode.{Speakable, encode_sections, encode, encode-Replies}
use mpd_protocol.Builder.Print.{Sendable, print_message, print_messages, print, print-OnWire}
use mpd_protocol.Builder.Refines.Run.{Delivered, parse_buffer-Delivered}
use mpd_protocol.Sync.BufRead.{Reader, bytes, interruption, stream}
use mpd_protocol.Sync.Stream.{Healthy, Healthy-bytes, Healthy-interruption}
use mpd_protocol.Sync.Session.{receive_times, Sends, silent, sends, AllShow, receive_times-AllShow}
use mpd_protocol.Codec
use mpd_protocol.Codec.Cuts.{decode_stream_cuts}
use mpd_protocol.Codec.Calls.{joined, decode_stream}
use mpd_protocol.Codec.Stream.{decode_stream-AllShow}
use mpd_protocol.Tests.Io.{position, position-MemchrLaws}

-- Two sections, the first with binary data, and an error behind them.
abbrev pub album : Reply
album = record {
  sections =
      record { pairs = (codes "file", codes "a b") ∷ []; binary = some (codes "\n\0") }
      ∷ record { pairs = []; binary = none }
      ∷ [];
  error = some (record {
    code = 50;
    command_index = 2;
    current_command = some (codes "play");
    message = codes "No such song";
  });
}

-- One section, not closed.
abbrev pub volume : Reply
volume = record {
  sections = record { pairs = (codes "volume", codes "100") ∷ []; binary = none } ∷ [];
  error = none;
}

album_printed :
    print album
    ≡ codes "file: a b\nbinary: 2\n\n\0\nlist_OK\nlist_OK\nACK [50@2] {play} No such song\n"
unfolding print print_message print_messages encode encode_sections decimal digits_within as_bytes
    encode_char
album_printed = refl

pub album-Sendable : All Sendable (encode album)
unfolding encode encode_sections
album-Sendable = ground arith

pub volume-Sendable : All Sendable (encode volume)
unfolding encode encode_sections
volume-Sendable = ground arith

-- The bytes of the first reply arrive in pieces, with the start of the second behind them.
abbrev pub album_source : Reader
album_source = record {
  buffered = codes "file: a";
  fills =
      bytes (codes " b\nbinary: 2\n\n")
      ∷ interruption
      ∷ bytes (codes "\0\nlist_OK\nlist_OK\nACK [50@2] {play} No such song\nvolume: 100\nOK\n")
      ∷ bytes (codes "next")
      ∷ [];
}

pub album_source-Healthy : All Healthy album_source.fills
album_source-Healthy =
    (Healthy-bytes _ _, (Healthy-interruption, (Healthy-bytes _ _, (Healthy-bytes _ _, tt))))

pub album_source-stream : stream album_source ≡ print album ++ (print volume ++ codes "next")
unfolding print print_message print_messages encode encode_sections decimal digits_within as_bytes
    encode_char
album_source-stream = refl

pub album_small : length (print album) < u64_max
unfolding print print_message print_messages encode encode_sections decimal digits_within as_bytes
    encode_char
album_small = omega arith

pub volume_small : length (print volume) < u64_max
unfolding print print_message print_messages encode encode_sections decimal digits_within as_bytes
    encode_char
volume_small = omega arith

pub album-Speakable : Speakable album
album-Speakable = cc

pub volume-Speakable : Speakable volume
volume-Speakable = cc

both_sent : Sends (codes "next") (stream album_source) (album ∷ volume ∷ [])
both_sent =
    sends (print album) (print volume ++ codes "next") (encode album) album (volume ∷ [])
      album_source-stream album_small (print-OnWire album album-Sendable)
      (encode-Replies album album-Speakable)
      (sends (print volume) (codes "next") (encode volume) volume [] refl volume_small
        (print-OnWire volume volume-Sendable) (encode-Replies volume volume-Speakable) silent)

receive_times-AllShow_example :
    AllShow (receive_times reference position 2 album_source).0 (album ∷ volume ∷ [])
    × (stream (receive_times reference position 2 album_source).1 ≡ codes "next")
receive_times-AllShow_example =
    receive_times-AllShow reference position album_source (codes "next") (album ∷ volume ∷ [])
      reference-CratesLaws position-MemchrLaws album_source-Healthy both_sent

parse_buffer-Delivered_example :
    Delivered reference [] volume (parse_buffer reference (new reference) (print volume))
unfolding progress
parse_buffer-Delivered_example =
    parse_buffer-Delivered (new reference) (print volume) [] (encode volume) volume
      reference-CratesLaws initial-WellFormed (print-OnWire volume volume-Sendable)
      (encode-Replies volume volume-Speakable) volume_small

pair-Unambiguous : Unambiguous (pair (codes "foo") (codes "bar"))
unfolding Unambiguous
pair-Unambiguous = cc

foo_line :
    Wire
      (pair_bytes (codes "foo") (codes "bar") (codes "OK\n"))
      (codes "OK\n")
      (pair (codes "foo") (codes "bar"))
unfolding from_utf8
foo_line =
    let some_key : codes "foo" ≢ [] = cc in
    let key : AllTest key_byte (codes "foo") = (refl, (refl, (refl, tt))) in
    let line : IsLine (codes "bar") (codes "bar") = ((refl, (refl, (refl, tt))), refl) in
    field_line (codes "foo") (codes "bar") (codes "bar") some_key key line refl

parse_complete_example :
    (p : ParsedComponent) × ((parse nom list_set
        (pair_bytes (codes "foo") (codes "bar") (codes "OK\n"))
        (no_keys list_set)).0
      ≡ done (codes "OK\n") p)
    × Says p (pair (codes "foo") (codes "bar"))
parse_complete_example =
    parse_complete (pair_bytes (codes "foo") (codes "bar") (codes "OK\n")) (codes "OK\n")
      (pair (codes "foo") (codes "bar")) (no_keys list_set) nom-NomLaws list_set-HashSetLaws
      foo_line pair-Unambiguous

-- The two replies, cut inside the binary data and inside a line.
abbrev pub arriving : List Bytes
arriving =
    codes "file: a b\nbinary: 2\n\n"
    ∷ codes "\0\nlist_OK\nlist_OK\nACK [50@2] {play} No such song\nvolume: 10"
    ∷ []
    ∷ codes "0\nOK\n"
    ∷ []

pub arriving_bytes : joined arriving ≡ print album ++ (print volume ++ [])
unfolding print print_message print_messages encode encode_sections decimal digits_within as_bytes
    encode_char
arriving_bytes = refl

both_arriving : Sends [] (joined arriving) (album ∷ volume ∷ [])
unfolding print print_message print_messages encode encode_sections decimal digits_within as_bytes
    encode_char
both_arriving =
    sends (print album) (print volume) (encode album) album (volume ∷ []) refl album_small
      (print-OnWire album album-Sendable) (encode-Replies album album-Speakable)
      (sends (print volume) [] (encode volume) volume [] refl volume_small
        (print-OnWire volume volume-Sendable) (encode-Replies volume volume-Speakable) silent)

decode_stream-AllShow_example :
    AllShow
      (decode_stream reference
        (suc (length (joined arriving) + length arriving))
        (Codec.new reference (codes "0.23"))
        []
        arriving)
      (album ∷ volume ∷ [])
decode_stream-AllShow_example =
    decode_stream-AllShow reference (codes "0.23") arriving (album ∷ volume ∷ [])
      reference-CratesLaws both_arriving (omega arith)

decode_stream_cuts_example :
    decode_stream reference 500 (Codec.new reference (codes "0.23")) [] arriving
    ≡ decode_stream reference 500 (Codec.new reference (codes "0.23")) [] (joined arriving ∷ [])
decode_stream_cuts_example =
    decode_stream_cuts reference (codes "0.23") 500 500 arriving (joined arriving ∷ [])
      reference-CratesLaws refl (omega arith) (omega arith) (omega arith)
