-- ===== src/Codec/Cuts.antt =====
-- The decoder of src/codec.rs under cuts: how the bytes of a connection are cut into pieces makes no difference
-- to what is returned, whatever the bytes are.
use mpd_protocol.Prelude.{
  ℕ, zero, suc, ◌+◌, ◌<◌, ◌≡◌, refl, sym, ap, ◌∙◌, subst, none, some, List, [], ◌∷◌, ◌++◌,
  append_assoc, append-nil, arith, length, length-append, Bytes,
}
use mpd_protocol.Std.Utf8.{Str}
use mpd_protocol.Std.Number.{u64_max}
use mpd_protocol.Crates.{Crates, CratesLaws}
use mpd_protocol.Builder.{
  ParseResult, ok, err, panicked, out_of_fuel, ResponseBuilder, new as new_builder, parse_buffer,
}
use mpd_protocol.Response.{Response}
use mpd_protocol.Builder.Streaming.{resume, parse_buffer-append}
use mpd_protocol.Builder.Progress.{Leaves, parse_buffer-Finishes}
use mpd_protocol.Codec.{MpdCodec, new, decode}
use mpd_protocol.Codec.Calls.{
  after_decode, decode_stream, joined, codec_with, resumed, decoded, empty_buffer,
}

module _ (c : Crates) (laws : CratesLaws c) (version : Str) where
  -- What a call of `decode` returns, given what the builder does.
  abbrev returned : ParseResult × ResponseBuilder c × Bytes → ParseResult × MpdCodec c × Bytes
  returned (result, b, left) =
      (result, record { current_response = b; protocol_version = version }, left)

  abbrev Loop : Type 0
  Loop = MpdCodec c → Bytes → List Bytes → List ParseResult

  -- Behind a call, the loop on pieces agrees with the loop on all bytes, if it does so after the next piece
  -- and after the response.
  after-agrees :
      (pieced whole : Loop) (p : ParseResult × ResponseBuilder c × Bytes) (pieces : List Bytes)
      → resume c [] p ≡ p
      → ((b : ResponseBuilder c) (left piece : Bytes) (pieces' : List Bytes)
          → p ≡ (ok none, b, left)
          → pieces ≡ piece ∷ pieces'
          → pieced (codec_with c laws version b) (left ++ piece) pieces'
            ≡ after_decode c whole (returned (resume c (joined pieces) p)) [])
      → ((response : Response) (b : ResponseBuilder c) (left : Bytes)
          → p ≡ (ok (some response), b, left)
          → pieced (codec_with c laws version b) left pieces
            ≡ whole (codec_with c laws version b) (left ++ joined pieces) [])
      → after_decode c pieced (returned p) pieces
        ≡ after_decode c whole (returned (resume c (joined pieces) p)) []
  unfolding after_decode resume
  after-agrees pieced whole (ok none, b, left) [] settled next answered =
      ap (λ t. after_decode c whole (returned t) []) (sym settled)
  after-agrees pieced whole (ok none, b, left) (piece ∷ pieces) settled next answered =
      next b left piece pieces refl refl
  after-agrees pieced whole (ok (some response), b, left) pieces settled next answered =
      ap (λ t. ok (some response) ∷ t) (answered response b left refl)
  after-agrees pieced whole (err e, b, left) pieces settled next answered = refl
  after-agrees pieced whole (panicked, b, left) pieces settled next answered = refl
  after-agrees pieced whole (out_of_fuel, b, left) pieces settled next answered = refl

  -- After part of a response, which the builder `start` has consumed.
  pub stream_at_once :
      (f g : ℕ) (start b : ResponseBuilder c) (consumed fresh left : Bytes) (pieces : List Bytes)
      → parse_buffer c start consumed ≡ (ok none, b, left)
      → length ((consumed ++ fresh) ++ joined pieces) < u64_max
      → length ((consumed ++ fresh) ++ joined pieces) + length pieces < f
      → length ((consumed ++ fresh) ++ joined pieces) < g
      → decode_stream c f (codec_with c laws version b) (left ++ fresh) pieces
        ≡ decode_stream c g
            (codec_with c laws version start)
            ((consumed ++ fresh) ++ joined pieces)
            []
  unfolding decode_stream
  stream_at_once zero g start b consumed fresh left pieces so_far small hf hg = absurd (omega arith)
  stream_at_once (suc f) zero start b consumed fresh left pieces so_far small hf hg =
      absurd (omega arith)
  stream_at_once (suc f) (suc g) start b consumed fresh left pieces so_far small hf hg =
      let part = consumed ++ fresh in
      let p = parse_buffer c start part in
      let sizes = length-append part (joined pieces) in
      let part_small : length part < u64_max = omega arith in
      let here : decode c (codec_with c laws version b) (left ++ fresh) ≡ returned p =
        decoded c laws version b (left ++ fresh)
          (resumed c laws version start b consumed left fresh so_far part_small) in
      let at_once : decode c (codec_with c laws version start) (part ++ joined pieces)
          ≡ returned (resume c (joined pieces) p) =
        decoded c laws version start (part ++ joined pieces)
          (parse_buffer-append start part (joined pieces) laws small) in
      let settled : resume c [] p ≡ p =
        sym (
          parse_buffer-append start part [] laws
            (subst (λ t. length t < u64_max) (sym (append-nil part)) part_small))
        ∙ ap (parse_buffer c start) (append-nil part) in
      let (_, _, leaves) = parse_buffer-Finishes start part laws part_small in
      ap (λ t. after_decode c (decode_stream c f) t pieces) here
      ∙ after-agrees (decode_stream c f) (decode_stream c g) p pieces settled
          (λ b' left' piece pieces' e cut.
            let whole : (part ++ piece) ++ joined pieces' ≡ part ++ joined pieces =
              append_assoc part piece (joined pieces') ∙ ap (λ t. part ++ joined t) (sym cut) in
            let same_length = ap length whole in
            let fewer = ap length cut in
            stream_at_once f (suc g) start b' part piece left' pieces' e (omega arith) (omega arith)
              (omega arith)
            ∙ ap (λ t. decode_stream c (suc g) (codec_with c laws version start) t []) whole
            ∙ ap (λ t. after_decode c (decode_stream c g) t []) at_once)
          (λ response b' left' e.
            let shorter : length left' < length part = subst (λ t. Leaves part t.0 t.2) e leaves in
            let left_sizes = length-append left' (joined pieces) in
            stream_at_once f g b' b' [] left' [] pieces (empty_buffer c laws version b')
              (omega arith) (omega arith) (omega arith))
      ∙ ap (λ t. after_decode c (decode_stream c g) t []) (sym at_once)

-- How the bytes of a connection are cut makes no difference, whatever the bytes are: two lists of pieces that
-- join to the same bytes give the same results, call after call of `decode` up to the end of the
-- input or the first error. The bytes fit in memory, and the fuel is more than the bytes and
-- the pieces together.
pub decode_stream_cuts :
    (c : Crates) (version : Str) (f g : ℕ) (pieces pieces' : List Bytes)
    → CratesLaws c
    → joined pieces ≡ joined pieces'
    → length (joined pieces) < u64_max
    → length (joined pieces) + length pieces < f
    → length (joined pieces') + length pieces' < g
    → decode_stream c f (new c version) [] pieces ≡ decode_stream c g (new c version) [] pieces'
decode_stream_cuts c version f g pieces pieces' laws same small hf hg =
    let lengths = ap length same in
    let fuel = suc (length (joined pieces)) in
    let start = new_builder c in
    stream_at_once c laws version f fuel start start [] [] [] pieces
      (empty_buffer c laws version start) small hf (omega arith)
    ∙ ap (λ t. decode_stream c fuel (new c version) t []) same
    ∙ sym (
        stream_at_once c laws version g fuel start start [] [] [] pieces'
          (empty_buffer c laws version start) (omega arith) hg (omega arith))
