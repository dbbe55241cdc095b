-- ===== src/Codec/Agreement.antt =====
-- The decoder of src/codec.rs against `receive` of src/sync.rs.
use mpd_protocol.Prelude.{
  ℕ, ◌<◌, ◌≡◌, refl, sym, ap, ◌∙◌, subst, Option, none, some, [], ◌∷◌, ◌++◌, length, All, Bytes,
}
use mpd_protocol.Std.Utf8.{Str}
use mpd_protocol.Std.Number.{u64_max}
use mpd_protocol.Crates.{Crates, CratesLaws}
use mpd_protocol.Builder.{
  ParseResult, ok, err, panicked, out_of_fuel, ResponseBuilder, new as new_builder, parse_buffer,
}
use mpd_protocol.Builder.Streaming.{resume, parse_buffer-append}
use mpd_protocol.Sync.BufRead.{Reader, stream}
use mpd_protocol.Sync.{receive}
use mpd_protocol.Sync.Stream.{MemchrLaws, Healthy}
use mpd_protocol.Sync.Receive.{whole_result, receive_lem}
use mpd_protocol.Codec.{MpdCodec, new, decode, decode_eof}

-- What comes after a call of `decode`: at the end of the input `decode_eof` decides.
at_end : (c : Crates) → ParseResult × MpdCodec c × Bytes → ParseResult
at_end c (ok none, codec, buf) = decode_eof c codec buf
at_end c (ok (some response), codec, buf) = ok (some response)
at_end c (err e, codec, buf) = err e
at_end c (panicked, codec, buf) = panicked
at_end c (out_of_fuel, codec, buf) = out_of_fuel

-- What comes after the first piece: it decides, or `decode` is called again when more is appended.
after_first : (c : Crates) → Bytes → ParseResult × MpdCodec c × Bytes → ParseResult
unfolding at_end
after_first c second (ok none, codec, left) = at_end c (decode c codec (left ++ second))
after_first c second (ok (some response), codec, left) = ok (some response)
after_first c second (err e, codec, left) = err e
after_first c second (panicked, codec, left) = panicked
after_first c second (out_of_fuel, codec, left) = out_of_fuel

-- The first result of a codec that is given the input in two pieces and then its end.
pub decode_pieces : (c : Crates) → MpdCodec c → Bytes → Bytes → ParseResult
unfolding after_first
decode_pieces c codec first second = after_first c second (decode c codec first)

module _ (c : Crates) (version : Str) where
  with_builder : ParseResult × ResponseBuilder c × Bytes → ParseResult × MpdCodec c × Bytes
  with_builder (result, b, left) =
      (result, record { current_response = b; protocol_version = version }, left)

  end-whole :
      (p : ParseResult × ResponseBuilder c × Bytes) → at_end c (with_builder p) ≡ whole_result c p
  unfolding at_end with_builder decode_eof whole_result
  end-whole (ok none, b, []) = refl
  end-whole (ok none, b, x ∷ buf) = refl
  end-whole (ok (some response), b, buf) = refl
  end-whole (err e, b, buf) = refl
  end-whole (panicked, b, buf) = refl
  end-whole (out_of_fuel, b, buf) = refl

  pieces-whole :
      (second : Bytes) (p : ParseResult × ResponseBuilder c × Bytes)
      → after_first c second (with_builder p) ≡ whole_result c (resume c second p)
  unfolding after_first with_builder decode resume whole_result
  pieces-whole second (ok none, b, left) = end-whole (parse_buffer c b (left ++ second))
  pieces-whole second (ok (some response), b, left) = refl
  pieces-whole second (err e, b, left) = refl
  pieces-whole second (panicked, b, left) = refl
  pieces-whole second (out_of_fuel, b, left) = refl

-- The two interfaces agree: a codec that gets the bytes in any two pieces and then the end of the input
-- comes to the same response, the same error or the same end as `receive` does on a source of these
-- bytes that does not fail. The bytes fit in memory.
pub decode_pieces-receive :
    (c : Crates) (memchr : ℕ → Bytes → Option ℕ) (version : Str) (r : Reader) (first second : Bytes)
    → CratesLaws c
    → MemchrLaws memchr
    → All Healthy r.fills
    → stream r ≡ first ++ second
    → length (first ++ second) < u64_max
    → decode_pieces c (new c version) first second ≡ (receive c memchr r).0
unfolding decode_pieces decode with_builder
decode_pieces-receive c memchr version r first second laws found healthy pieces small =
    let short : length (stream r) < u64_max = subst (λ s. length s < u64_max) (sym pieces) small in
    pieces-whole c version second (parse_buffer c (new_builder c) first)
    ∙ ap (whole_result c) (sym (parse_buffer-append (new_builder c) first second laws small))
    ∙ ap (λ s. whole_result c (parse_buffer c (new_builder c) s)) (sym pieces)
    ∙ sym (receive_lem c memchr r laws found healthy short)
