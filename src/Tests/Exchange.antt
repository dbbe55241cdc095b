-- ===== src/Tests/Exchange.antt =====
-- The theorems on what a server reads, and on the two directions together, at concrete inputs.
use mpd_protocol.Prelude.{
  ℕ, zero, ◌≢◌, inl, inr, ◌≡◌, suc, ◌+◌, length, refl, sym, ap, ◌∙◌, none, some, List, [], ◌∷◌,
  ◌++◌, append-nil, append_assoc, arith, Bytes, codes,
}
use mpd_protocol.BytesMut.{list_bytes, list_bytes-BytesLaws}
use mpd_protocol.Crates.{reference, reference-CratesLaws}
use mpd_protocol.Command.{Command, build}
use mpd_protocol.Command.Render.{CommandList, new}
use mpd_protocol.Command.Escape.RoundTrip.{add_arguments}
use mpd_protocol.Command.Requests.{Request, single, several, read_requests}
use mpd_protocol.Command.Requests.Lines.{Built}
use mpd_protocol.Command.Requests.RoundTrip.{Asks, render_lists, read_requests-render_lists}
use mpd_protocol.Command.Escape.Scanner.{words}
use mpd_protocol.Tests.Words.{words-TokenizerLaws}
use mpd_protocol.Sync.BufRead.{stream}
use mpd_protocol.Sync.Connect.{Write, send_list}
use mpd_protocol.Sync.Session.{receive_times, AllShow}
use mpd_protocol.Sync.Exchange.{
  Server, WriteLaws, send_lists, answers, print_all, read_requests-send_lists, exchange-AllShow,
}
use mpd_protocol.Codec as Codec
use mpd_protocol.Codec.Calls.{joined, decode_stream}
use mpd_protocol.Codec.Exchange.{encode_lists, encode_lists-render_lists, exchange-decode_stream}
use mpd_protocol.Builder.Print.{print}
use mpd_protocol.Tests.Io.{position, position-MemchrLaws}
use mpd_protocol.Tests.Commands.{find_command, found_command}
use mpd_protocol.Tests.Replies.{
  arriving, arriving_bytes, album, volume, album_source, album_source-Healthy, album_source-stream,
  album-Speakable, album-Sendable, album_small, volume-Speakable, volume-Sendable, volume_small,
}

abbrev status : Command
status = record { base = codes "status"; args = [] }

status-Built : Built status (codes "status" ∷ [])
unfolding build add_arguments
status-Built = record {
  base = codes "status";
  arguments = [];
  are_words = refl;
  made = refl;
  scalars = tt;
  letter = refl;
  documented = tt;
}

title_some : codes "title" ≢ []
title_some = cc

find-Built : Built find_command (codes "find" ∷ codes "title" ∷ codes "say \"a\"" ∷ [])
find-Built = record {
  base = codes "find";
  arguments = codes "title" ∷ codes "say \"a\"" ∷ [];
  are_words = refl;
  made = found_command;
  scalars = ground arith;
  letter = refl;
  documented = (inr (title_some, ground arith), (inl (refl, ground arith), tt));
}

-- A list of two commands, and a command alone.
abbrev two_lists : List CommandList
two_lists = record { head = find_command; tail = status ∷ [] } ∷ new status ∷ []

abbrev two_requests : List Request
two_requests =
    several ((codes "find" ∷ codes "title" ∷ codes "say \"a\"" ∷ []) ∷ (codes "status" ∷ []) ∷ [])
    ∷ single (codes "status" ∷ [])
    ∷ []

both_ask : Asks two_lists two_requests
both_ask = ((find-Built, (status-Built, tt)), (status-Built, tt))

read_requests-render_lists_example :
    read_requests words (render_lists list_bytes two_lists []) ≡ some two_requests
read_requests-render_lists_example =
    read_requests-render_lists words two_lists two_requests list_bytes-BytesLaws words-TokenizerLaws
      both_ask

-- A writer that keeps what is written.
abbrev vec : Write Bytes
vec = record { write_all = λ out bytes. (none, out ++ bytes) }

vec-WriteLaws : WriteLaws vec (λ out. out)
vec-WriteLaws = record { write_all_lem = λ out bytes e. cc }

-- A server that counts the requests, and replies according to the count.
abbrev serve : Server ℕ
serve zero q = (album, 1)
serve (suc n) q = (volume, suc (suc n))

abbrev written_bytes : Bytes
written_bytes = (send_lists reference.bytes vec two_lists []).1

sent_both : send_lists reference.bytes vec two_lists [] ≡ (none, written_bytes)
unfolding send_lists send_list
sent_both = refl

carries : stream album_source ≡ answers serve 0 (read_requests words written_bytes) ++ codes "next"
unfolding answers print_all
carries =
    let read =
      read_requests-send_lists reference.bytes words two_lists two_requests [] written_bytes
        reference-CratesLaws.bytes words-TokenizerLaws vec-WriteLaws both_ask refl sent_both in
    album_source-stream
    ∙ ap (λ s. print album ++ s) (ap (λ s. s ++ codes "next") (sym (append-nil (print volume))))
    ∙ sym (append_assoc (print album) (print volume ++ []) (codes "next"))
    ∙ sym (ap (λ o. answers serve 0 o ++ codes "next") read)

exchange-AllShow_example :
    AllShow (receive_times reference position 2 album_source).0 (album ∷ volume ∷ [])
    × (stream (receive_times reference position 2 album_source).1 ≡ codes "next")
exchange-AllShow_example =
    exchange-AllShow reference position words serve 0 two_lists two_requests [] written_bytes
      album_source (codes "next") reference-CratesLaws position-MemchrLaws words-TokenizerLaws
      vec-WriteLaws both_ask refl sent_both album_source-Healthy carries
      (
        (album-Speakable, album-Sendable, album_small),
        ((volume-Speakable, volume-Sendable, volume_small), tt),
      )

abbrev encoded : Bytes
encoded = encode_lists reference (Codec.new reference (codes "0.23")) two_lists []

answered_arriving : joined arriving ≡ answers serve 0 (read_requests words encoded)
unfolding answers print_all
answered_arriving =
    let read : read_requests words encoded ≡ some two_requests =
      ap (read_requests words)
        (encode_lists-render_lists reference (Codec.new reference (codes "0.23")) two_lists [])
      ∙ read_requests-render_lists words two_lists two_requests reference-CratesLaws.bytes
          words-TokenizerLaws both_ask in
    arriving_bytes ∙ sym (ap (answers serve 0) read)

exchange-decode_stream_example :
    AllShow
      (decode_stream reference
        (suc (length (joined arriving) + length arriving))
        (Codec.new reference (codes "0.23"))
        []
        arriving)
      (album ∷ volume ∷ [])
exchange-decode_stream_example =
    exchange-decode_stream reference (codes "0.23") words serve 0 two_lists two_requests arriving
      reference-CratesLaws words-TokenizerLaws both_ask answered_arriving
      (
        (album-Speakable, album-Sendable, album_small),
        ((volume-Speakable, volume-Sendable, volume_small), tt),
      )
      (omega arith)
