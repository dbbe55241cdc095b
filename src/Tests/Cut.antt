-- ===== src/Tests/Cut.antt =====
-- The theorems on parts of replies at concrete inputs.
use mpd_protocol.Prelude.{◌<◌, ◌≡◌, refl, subst, [], ◌∷◌, ◌++◌, length, All, codes}
use mpd_protocol.Std.Utf8.{as_bytes, encode_char}
use mpd_protocol.Std.Decimal.{decimal, digits_within}
use mpd_protocol.Std.Number.{u64_max}
use mpd_protocol.Errors.{unexpected_eof, io}
use mpd_protocol.Crates.{reference, reference-CratesLaws}
use mpd_protocol.Builder.{err, new, parse_buffer}
use mpd_protocol.Builder.Invariant.{initial-WellFormed}
use mpd_protocol.Builder.Abstract.{OnWire, progress}
use mpd_protocol.Builder.Encode.{encode, encode_sections, encode-Replies}
use mpd_protocol.Builder.Print.{print, print_message, print_messages, print-OnWire}
use mpd_protocol.Builder.Refines.Prefix.{SoFar, parse_buffer-SoFar}
use mpd_protocol.Sync.{receive}
use mpd_protocol.Sync.BufRead.{Reader, bytes, interruption, stream}
use mpd_protocol.Sync.Stream.{Healthy, Healthy-bytes, Healthy-interruption}
use mpd_protocol.Sync.Cut.{receive_times-cut_result}
use mpd_protocol.Sync.Session.{receive_times, AllShow, Sends, sends, silent}
use mpd_protocol.Tests.Io.{position, position-MemchrLaws}
use mpd_protocol.Tests.Replies.{volume, volume-Speakable, volume-Sendable, volume_small}

volume_printed : print volume ≡ codes "volume: 1" ++ codes "00\nOK\n"
unfolding print print_message print_messages encode encode_sections decimal digits_within as_bytes
    encode_char
volume_printed = refl

volume-OnWire : OnWire [] (codes "volume: 1" ++ codes "00\nOK\n") (encode volume)
volume-OnWire =
    subst (λ s. OnWire [] s (encode volume)) volume_printed (print-OnWire volume volume-Sendable)

volume_part_small : length (codes "volume: 1" ++ codes "00\nOK\n") < u64_max
volume_part_small = subst (λ s. length s < u64_max) volume_printed volume_small

parse_buffer-SoFar_example :
    SoFar volume (parse_buffer reference (new reference) (codes "volume: 1")).0
unfolding progress
parse_buffer-SoFar_example =
    parse_buffer-SoFar (new reference) (codes "volume: 1") (codes "00\nOK\n") [] (encode volume)
      volume reference-CratesLaws initial-WellFormed volume-OnWire
      (encode-Replies volume volume-Speakable) volume_part_small

-- A connection that ends inside the second reply.
abbrev cut_source : Reader
cut_source = record {
  buffered = codes "vol";
  fills = interruption ∷ bytes (codes "ume: 100\nOK\nvolu") ∷ bytes (codes "me: 1") ∷ [];
}

cut_source-Healthy : All Healthy cut_source.fills
cut_source-Healthy = (Healthy-interruption, (Healthy-bytes _ _, (Healthy-bytes _ _, tt)))

cut_source_sends : Sends (codes "volume: 1") (stream cut_source) (volume ∷ [])
cut_source_sends =
    sends (codes "volume: 1" ++ codes "00\nOK\n") (codes "volume: 1") (encode volume) volume [] refl
      volume_part_small volume-OnWire (encode-Replies volume volume-Speakable) silent

receive_times-cut_result_example :
    AllShow (receive_times reference position 1 cut_source).0 (volume ∷ [])
    × ((receive reference position (receive_times reference position 1 cut_source).1).0
        ≡ err (io unexpected_eof))
receive_times-cut_result_example =
    receive_times-cut_result reference position cut_source (codes "volume: 1") (volume ∷ []) b'0'
      (codes "0\nOK\n") (encode volume) volume reference-CratesLaws position-MemchrLaws
      cut_source-Healthy cut_source_sends volume-OnWire (encode-Replies volume volume-Speakable)
      volume_part_small
