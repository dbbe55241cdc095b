-- ===== src/Codec/Calls.antt =====
-- A caller of the decoder of src/codec.rs that keeps to the contract of `Decoder`: bytes arrive in pieces, and
-- `decode` is called until it asks for more.
use mpd_protocol.Prelude.{
  ℕ, zero, suc, ◌<◌, ◌≡◌, refl, sym, ap, ◌∙◌, none, some, List, [], ◌∷◌, ◌++◌, length, Bytes,
}
use mpd_protocol.Std.Utf8.{Str}
use mpd_protocol.Std.Number.{u64_max}
use mpd_protocol.Crates.{Crates, CratesLaws}
use mpd_protocol.Builder.{
  ParseResult, ok, err, panicked, out_of_fuel, ResponseBuilder, parse_buffer,
}
use mpd_protocol.Builder.Streaming.{resume, parse_buffer-append}
use mpd_protocol.Codec.{MpdCodec, decode, decode_eof}

-- At the end of the input: an error if there is one.
unfoldable pub at_end : ParseResult → List ParseResult
at_end (ok none) = []
at_end (ok (some response)) = ok (some response) ∷ []
at_end (err e) = err e ∷ []
at_end panicked = panicked ∷ []
at_end out_of_fuel = out_of_fuel ∷ []

-- What follows a call of `decode`: its response and the loop again, or the next piece, or the end.
unfoldable pub after_decode :
    (c : Crates)
    → (MpdCodec c → Bytes → List Bytes → List ParseResult)
    → ParseResult × MpdCodec c × Bytes
    → List Bytes
    → List ParseResult
unfolding at_end
after_decode c loop (ok (some response), codec, left) pieces =
    ok (some response) ∷ loop codec left pieces
after_decode c loop (ok none, codec, left) [] = at_end (decode_eof c codec left)
after_decode c loop (ok none, codec, left) (piece ∷ pieces) = loop codec (left ++ piece) pieces
after_decode c loop (err e, codec, left) pieces = err e ∷ []
after_decode c loop (panicked, codec, left) pieces = panicked ∷ []
after_decode c loop (out_of_fuel, codec, left) pieces = out_of_fuel ∷ []

-- What a caller gets that calls `decode` on the buffer, up to the first error: where `decode` asks for more,
-- the next piece is appended to the buffer, and at the end of the input `decode_eof` is called. On fuel, one
-- for each call.
unfoldable pub decode_stream : (c : Crates) → ℕ → MpdCodec c → Bytes → List Bytes → List ParseResult
unfolding after_decode
decode_stream c zero codec buf pieces = out_of_fuel ∷ []
decode_stream c (suc fuel) codec buf pieces =
    after_decode c (decode_stream c fuel) (decode c codec buf) pieces

abbrev pub joined : List Bytes → Bytes
joined [] = []
joined (piece ∷ pieces) = piece ++ joined pieces

module _ (c : Crates) (laws : CratesLaws c) (version : Str) where
  abbrev pub codec_with : ResponseBuilder c → MpdCodec c
  codec_with b = record { current_response = b; protocol_version = version }

  -- A call of `decode` at a state that has consumed a part of a response.
  pub resumed :
      (start b : ResponseBuilder c) (consumed left fresh : Bytes)
      → parse_buffer c start consumed ≡ (ok none, b, left)
      → length (consumed ++ fresh) < u64_max
      → parse_buffer c b (left ++ fresh) ≡ parse_buffer c start (consumed ++ fresh)
  unfolding resume
  resumed start b consumed left fresh so_far small =
      sym (parse_buffer-append start consumed fresh laws small ∙ ap (resume c fresh) so_far)

  pub decoded :
      (b : ResponseBuilder c) (buf : Bytes) {result : ParseResult} {b' : ResponseBuilder c}
      {left : Bytes}
      → parse_buffer c b buf ≡ (result, b', left)
      → decode c (codec_with b) buf ≡ (result, codec_with b', left)
  unfolding decode
  decoded b buf e = rw e refl

  pub empty_buffer : (b : ResponseBuilder c) → parse_buffer c b [] ≡ (ok none, b, [])
  empty_buffer b = unfold parse_buffer in refl
