-- ===== src/Codec/Stream.antt =====
-- The decoder of src/codec.rs on a connection that carries replies.
use mpd_protocol.Prelude.{
  ℕ, zero, suc, ◌+◌, ◌≤◌, ◌<◌, ◌≡◌, refl, sym, ap, ◌∙◌, subst, List, [], ◌∷◌, arith, length,
  length-append, Bytes,
}
use mpd_protocol.Std.Utf8.{Str}
use mpd_protocol.Std.Number.{u64_max}
use mpd_protocol.Crates.{Crates, CratesLaws}
use mpd_protocol.Builder.{
  ResponseBuilder, initial, is_frame_in_progress, new as new_builder, parse_buffer,
}
use mpd_protocol.Parser.Wire.{Message}
use mpd_protocol.Builder.Messages.{Wire-length}
use mpd_protocol.Builder.Invariant.{WellFormed, initial-WellFormed}
use mpd_protocol.Builder.Abstract.{
  Reply, Progress, OnWire, stop, more, Replies, nothing_yet, progress,
}
use mpd_protocol.Builder.Refines.Run.{Delivered, parse_buffer-Delivered}
use mpd_protocol.Builder.Refines.Waits.{delivered_behind}
use mpd_protocol.Sync.Session.{Sends, silent, sends, AllShow}
use mpd_protocol.Codec.{new, decode_eof}
use mpd_protocol.Codec.Calls.{
  at_end, after_decode, decode_stream, joined, codec_with, decoded, empty_buffer,
}
use mpd_protocol.Codec.Cuts.{stream_at_once}

module _ (c : Crates) (laws : CratesLaws c) (version : Str) where
  ends_clean :
      (start : ResponseBuilder c)
      → start.state ≡ initial
      → at_end (decode_eof c (codec_with c laws version start) []) ≡ []
  unfolding at_end decode_eof is_frame_in_progress
  ends_clean start starts = rw starts refl

  starts-Delivered :
      (start : ResponseBuilder c) (i : Bytes) (ms : List Message) (y : Reply)
      → start.state ≡ initial
      → OnWire [] i ms
      → Replies y nothing_yet ms
      → length i < u64_max
      → Delivered c [] y (parse_buffer c start i)
  unfolding progress
  starts-Delivered start i ms y starts wire replied fits =
      parse_buffer-Delivered start i [] ms y laws (subst WellFormed (sym starts) initial-WellFormed)
        wire (subst (λ state. Replies y (progress state) ms) (sym starts) replied) fits

  reply_bytes :
      {i : Bytes} {ms : List Message} {p : Progress} {y : Reply}
      → OnWire [] i ms
      → Replies y p ms
      → 1 ≤ length i
  reply_bytes stop replied = elim replied [ ]
  reply_bytes (more j m ms w u rest) replied = let less = Wire-length w in omega arith

  -- The calls on all bytes at once, at a builder that is as new.
  at_once-AllShow :
      (fuel : ℕ) (start : ResponseBuilder c) (s : Bytes) (ys : List Reply)
      → start.state ≡ initial
      → Sends [] s ys
      → length s < u64_max
      → length s < fuel
      → AllShow (decode_stream c fuel (codec_with c laws version start) s []) ys
  unfolding decode_stream after_decode AllShow
  at_once-AllShow zero start s ys starts sent small enough = absurd (omega arith)
  at_once-AllShow (suc fuel) start s [] starts silent small enough =
      rw
        (
          decoded c laws version start [] (empty_buffer c laws version start),
          ends_clean start starts,
        )
        tt
  at_once-AllShow (suc fuel) start s (_ ∷ _) starts
        (sends i t ms y ys splits fits wire replied later) small enough =
      let d = starts-Delivered start i ms y starts wire replied fits in
      let b' = (parse_buffer c start i).1 in
      let result =
        ap (parse_buffer c start) splits
        ∙ delivered_behind laws start i d fits t (subst (λ z. length z < u64_max) splits small) in
      let some_byte = reply_bytes wire replied in
      let sizes = length-append i t in
      let whole = ap length splits in
      rw (decoded c laws version start s result)
        (d.shows, at_once-AllShow fuel b' t ys d.restarts later (omega arith) (omega arith))

-- A stream of replies through the decoder: if the pieces that arrive are, together, the bytes of replies, one
-- behind the other, then the calls of `decode` return exactly responses that show these replies, in order,
-- and the input ends without an error, however the bytes are cut. They fit in memory, and no field has
-- the key `binary`.
pub decode_stream-AllShow :
    (c : Crates) (version : Str) (pieces : List Bytes) (ys : List Reply)
    → CratesLaws c
    → Sends [] (joined pieces) ys
    → length (joined pieces) < u64_max
    → AllShow
        (decode_stream c (suc (length (joined pieces) + length pieces)) (new c version) [] pieces)
        ys
decode_stream-AllShow c version pieces ys laws sent small =
    let fuel = suc (length (joined pieces)) in
    let start = new_builder c in
    subst (λ results. AllShow results ys)
      (sym (
        stream_at_once c laws version (suc (length (joined pieces) + length pieces)) fuel start
          start [] [] [] pieces (empty_buffer c laws version start) small (omega arith)
          (omega arith)))
      (at_once-AllShow c laws version fuel start (joined pieces) ys refl sent small (omega arith))
