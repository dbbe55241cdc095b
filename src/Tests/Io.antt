-- ===== src/Tests/Io.antt =====
-- Reading responses from sources that cut the bytes and are interrupted.
use mpd_protocol.Prelude.{
  ℕ, suc, ◌≡◌, ◌≢◌, refl, true, false, Option, none, some, [], ◌∷◌, ◌++◌, arith, ◌==◌,
  if◌then◌else◌, length, All, Bytes, codes,
}
use mpd_protocol.Crates.{reference, reference-CratesLaws}
use mpd_protocol.BytesMut.{list_bytes-BytesLaws}
use mpd_protocol.Builder.{parse_buffer, new}
use mpd_protocol.Errors.{other}
use mpd_protocol.Builder.{panicked, out_of_fuel}
use mpd_protocol.Sync.Safe.{receive_safe}
use mpd_protocol.Sync.BufRead.{Reader, bytes, failure, interruption, stream}
use mpd_protocol.Sync.{read_until, receive}
use mpd_protocol.Sync.Stream.{MemchrLaws, Healthy, Healthy-bytes, Healthy-interruption}
use mpd_protocol.Sync.Lines.{ReadsLine, read_until-ReadsLine}
use mpd_protocol.Prelude.{◌↔◌}
use mpd_protocol.Nom.Laws.{done}
use mpd_protocol.Nom.Reference.{nom, nom-NomLaws}
use mpd_protocol.Parser.{greeting}
use mpd_protocol.Parser.Greeting.{Greets, greeting-eq-done_iff}
use mpd_protocol.Sync.Connect.{connect, connected}
use mpd_protocol.Sync.Connect.Handshake.{connect-eq-connected_iff}
use mpd_protocol.Codec
use mpd_protocol.Codec.Agreement.{decode_pieces, decode_pieces-receive}
use mpd_protocol.Sync.Receive.{whole_result, receive_lem}

-- `memchr` by a scan.
abbrev pub position : ℕ → Bytes → Option ℕ
position d [] = none
position d (x ∷ s) =
    let later : Option ℕ = elim (position d s) [ none ↦ none | some i ↦ some (suc i) ] in
    if x == d then some 0 else later

pub position-MemchrLaws : MemchrLaws position
position-MemchrLaws = record { found = scan_found; absent = scan_absent }
  where
    scan_found :
        (d : ℕ) (before after : Bytes)
        → All (λ x. x ≢ d) before
        → position d (before ++ d ∷ after) ≡ some (length before)
    scan_found d [] after h = let here : (d == d) ≡ true = ground arith in rw here
    scan_found d (x ∷ before) after (hx, h) =
        let later : (x == d) ≡ false = ground arith in rw (later, scan_found d before after h)

    scan_absent : (d : ℕ) (s : Bytes) → All (λ x. x ≢ d) s → position d s ≡ none
    scan_absent d [] h = refl
    scan_absent d (x ∷ s) (hx, h) =
        let later : (x == d) ≡ false = ground arith in rw (later, scan_absent d s h)

-- A response in three pieces, with an interruption between them.
abbrev source : Reader
source = record {
  buffered = codes "fo";
  fills = bytes (codes "o: bar\nO") ∷ interruption ∷ bytes (codes "K\n") ∷ [];
}

source-Healthy : All Healthy source.fills
source-Healthy = (Healthy-bytes _ _, (Healthy-interruption, (Healthy-bytes _ _, tt)))

read_until-ReadsLine_example :
    ReadsLine b'\n'
      (stream source)
      0
      (codes "x")
      (read_until reference position source b'\n' (codes "x"))
read_until-ReadsLine_example =
    read_until-ReadsLine reference position source b'\n' (codes "x") list_bytes-BytesLaws
      position-MemchrLaws source-Healthy

receive_lem_example :
    (receive reference position source).0
    ≡ whole_result reference (parse_buffer reference (new reference) (stream source))
receive_lem_example =
    receive_lem reference position source reference-CratesLaws position-MemchrLaws source-Healthy
      (omega arith)

-- A greeting that arrives in two pieces, with the first response behind it.
abbrev greeting_source : Reader
greeting_source = record {
  buffered = [];
  fills = bytes (codes "OK M") ∷ interruption ∷ bytes (codes "PD 0.23\nfoo") ∷ [];
}

greeting_source-Healthy : All Healthy greeting_source.fills
greeting_source-Healthy = (Healthy-bytes _ _, (Healthy-interruption, (Healthy-bytes _ _, tt)))

connect-eq-connected_iff_example :
    ((connect nom greeting_source).0 ≡ connected (codes "0.23"))
    ↔ Greets (stream greeting_source) (stream (connect nom greeting_source).1) (codes "0.23")
connect-eq-connected_iff_example =
    connect-eq-connected_iff nom greeting_source (codes "0.23") nom-NomLaws greeting_source-Healthy

greeting-eq-done_iff_example :
    (greeting nom (codes "OK MPD 0.23\nfoo") ≡ done (codes "foo") (codes "0.23"))
    ↔ Greets (codes "OK MPD 0.23\nfoo") (codes "foo") (codes "0.23")
greeting-eq-done_iff_example =
    greeting-eq-done_iff (codes "OK MPD 0.23\nfoo") (codes "foo") (codes "0.23") nom-NomLaws

decode_pieces-receive_example :
    decode_pieces reference (Codec.new reference (codes "0.23")) (codes "foo: ba") (codes "r\nOK\n")
    ≡ (receive reference position source).0
decode_pieces-receive_example =
    decode_pieces-receive reference position (codes "0.23") source (codes "foo: ba")
      (codes "r\nOK\n") reference-CratesLaws position-MemchrLaws source-Healthy refl (omega arith)

-- A source that fails inside a response.
abbrev failing_source : Reader
failing_source = record {
  buffered = codes "fo";
  fills = bytes (codes "o: bar\n") ∷ failure (other 104) ∷ bytes [] ∷ bytes (codes "OK\n") ∷ [];
}

receive_safe_example :
    ((receive reference position failing_source).0 ≢ panicked)
    × ((receive reference position failing_source).0 ≢ out_of_fuel)
receive_safe_example =
    receive_safe reference position failing_source reference-CratesLaws position-MemchrLaws
      (omega arith)
