-- ===== src/Codec/Connect.antt =====
-- `MpdCodec::connect` of src/codec.rs: the loop that reads the greeting.
pub mod Returns
pub mod Rounds
pub mod Pieces
use mpd_protocol.Prelude.{
  ℕ, zero, suc, ◌+◌, ◌-◌, ◌≤◌, ◌≡◌, List, [], ◌∷◌, ◌++◌, ◌==◌, leb, if◌then◌else◌, length, take,
  drop, Bytes, codes,
}
use mpd_protocol.Std.Utf8.{Str}
use mpd_protocol.Errors.{IoError, MpdProtocolError, io, invalid_message}
use mpd_protocol.Nom.Laws.{IResult, done, incomplete, error, failure}
use mpd_protocol.Crates.{Crates}
use mpd_protocol.Parser.{greeting}
use mpd_protocol.Codec.{MpdCodec, new}

-- What `AsyncReadExt::read` resolves to: the bytes that it put at the start of the buffer, or an error.
pub data ReadOutcome : Type 0 where
  read_bytes : Bytes → ReadOutcome
  read_failed : IoError → ReadOutcome

-- `tokio::io::AsyncReadExt`: `read` is given the length of the buffer.
pub record AsyncRead (S : Type 0) : Type 0 where
  pub read : S → ℕ → ReadOutcome × S

-- A read gives no more than the buffer holds.
pub record AsyncReadLaws {S : Type 0} (a : AsyncRead S) : Type 0 where
  pub read_fits : (s s' : S) (n : ℕ) (b : Bytes) → a.read s n ≡ (read_bytes b, s') → length b ≤ n

zeros : ℕ → Bytes
zeros zero = []
zeros (suc n) = 0 ∷ zeros n

-- `[0u8; 32]`
abbrev pub greeting_length : ℕ
greeting_length = 32

pub empty_greeting : Bytes
unfolding zeros
empty_greeting = zeros greeting_length

-- The buffer after bytes were put at its start.
abbrev pub overwrite : Bytes → Bytes → Bytes
overwrite b buf = b ++ drop (length b) buf

-- `Result<Framed<IO, MpdCodec>, MpdProtocolError>`, a panic, or the loop's fuel ran out. A `Framed` is the
-- IO object and the codec, with empty buffers.
pub data ConnectResult (c : Crates) (S : Type 0) : Type 0 where
  connected : S → MpdCodec c → ConnectResult c S
  refused : MpdProtocolError → ConnectResult c S
  panicked out_of_fuel : ConnectResult c S

module _ (c : Crates) {S : Type 0} (a : AsyncRead S) where
  -- How a round of the loop ends. The next round has the number of bytes read and the buffer.
  pub data ConnectRound : Type 0 where
    connect_again : S → ℕ → Bytes → ConnectRound
    connect_stop : ConnectResult c S → ConnectRound

  -- `!e.is_incomplete() || read == greeting.len() - 1`
  pub on_greeting : IResult Str → S → ℕ → Bytes → ConnectRound
  on_greeting (done rest version) s read buf = connect_stop (connected s (new c version))
  on_greeting incomplete s read buf =
      if read == greeting_length - 1
      then connect_stop (refused invalid_message)
      else connect_again s read buf
  on_greeting error s read buf = connect_stop (refused invalid_message)
  on_greeting failure s read buf = connect_stop (refused invalid_message)

  -- `&greeting[..read]` panics behind the end of the buffer.
  parse_read : S → ℕ → Bytes → ConnectRound
  unfolding on_greeting
  parse_read s read buf =
      if leb read (length buf)
      then on_greeting (greeting c.nom (take read buf)) s read buf
      else connect_stop panicked

  pub on_outcome : ReadOutcome × S → ℕ → Bytes → ConnectRound
  unfolding parse_read
  on_outcome (read_failed e, s) read buf = connect_stop (refused (io e))
  on_outcome (read_bytes b, s) read buf = parse_read s (read + length b) (overwrite b buf)

  pub connect_loop : ℕ → S → ℕ → Bytes → ConnectResult c S
  unfolding on_outcome
  connect_loop zero s read buf = out_of_fuel
  connect_loop (suc fuel) s read buf = elim (on_outcome (a.read s (length buf)) read buf) [
    | connect_again s' read' buf' ↦ connect_loop fuel s' read' buf'
    | connect_stop result ↦ result
  ]

  -- `MpdCodec::connect`, with fuel: a source can be read any number of times.
  unfoldable pub connect : ℕ → S → ConnectResult c S
  unfolding connect_loop empty_greeting
  connect fuel s = connect_loop fuel s 0 empty_greeting
