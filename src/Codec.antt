-- ===== src/Codec.antt =====
-- src/codec.rs: the encoder and the decoder of the asynchronous interface. The span for logging is
-- left out of the codec's state.
pub mod Agreement
pub mod Connect
pub mod Calls
pub mod Stream
pub mod Exchange
pub mod Sharing
pub mod Cuts
use mpd_protocol.Prelude.{
  Bool, true, false, not, ◌||◌, Option, none, some, [], ◌∷◌, if◌then◌else◌, Bytes,
}
use mpd_protocol.Std.Utf8.{Str}
use mpd_protocol.Errors.{io, unexpected_eof}
use mpd_protocol.Crates.{Crates}
use mpd_protocol.Command.{Command}
use mpd_protocol.Command.Render.{CommandList, render_list, new as new_list}
use mpd_protocol.Builder.{
  ParseResult, ok, err, ResponseBuilder, new as new_builder, parse_buffer, is_frame_in_progress,
}

-- `BytesMut::is_empty`
abbrev is_empty : Bytes → Bool
is_empty [] = true
is_empty (x ∷ s) = false

module _ (c : Crates) where
  pub record MpdCodec : Type 0 where
    pub current_response : ResponseBuilder c
    pub protocol_version : Str

  -- The codec that `MpdCodec::connect` makes for the version that the server has named.
  abbrev pub new : Str → MpdCodec
  new version = record { current_response = new_builder c; protocol_version = version }

  -- `Encoder<CommandList>::encode`: the buffer after the call.
  unfoldable pub encode_list : MpdCodec → CommandList → Bytes → Bytes
  encode_list codec list buf = render_list c.bytes list buf

  -- `Encoder<Command>::encode`
  pub encode : MpdCodec → Command → Bytes → Bytes
  unfolding encode_list
  encode codec command dst = encode_list codec (new_list command) dst

  -- `Decoder::decode`: the result, the codec and the buffer after the call.
  unfoldable pub decode : MpdCodec → Bytes → ParseResult × MpdCodec × Bytes
  decode codec src =
      let (result, b, left) = parse_buffer c codec.current_response src in
      (result, record codec { current_response = b }, left)

  -- `Decoder::decode_eof`
  unfoldable pub decode_eof : MpdCodec → Bytes → ParseResult
  decode_eof codec buf =
      if not (is_empty buf) || is_frame_in_progress codec.current_response.state
      then err (io unexpected_eof)
      else ok none
