-- ===== src/Sync.antt =====
-- src/sync.rs: reading responses and writing commands over synchronous IO. The loops run on fuel.
pub mod BufRead
pub mod Stream
pub mod Lines
pub mod Rounds
pub mod Receive
pub mod Replies
pub mod Session
pub mod Exchange
pub mod Cut
pub mod RoundTrip
pub mod Moves
pub mod Safe
pub mod Connect
use mpd_protocol.Prelude.{
  ℕ, zero, suc, ◌+◌, Bool, true, false, not, ◌||◌, Option, none, some, List, [], ◌∷◌, ◌==◌,
  if◌then◌else◌, length, take, Bytes,
}
use mpd_protocol.Errors.{IoError, unexpected_eof, io}
use mpd_protocol.Crates.{Crates}
use mpd_protocol.Response.{Response}
use mpd_protocol.Builder.{
  ParseResult, ok, err, panicked, out_of_fuel, ResponseBuilder, new, parse_buffer,
  is_frame_in_progress,
}
use mpd_protocol.Sync.BufRead.{
  Reader, FillResult, available, interrupted, failed, fill_buf, consume, stream,
}

-- What `read_until` returns.
pub data ReadResult : Type 0 where
  read_ok : ℕ → ReadResult
  read_err : IoError → ReadResult
  read_out_of_fuel : ReadResult

pub data ReadRound : Type 0 where
  read_again : Reader → ℕ → Bytes → ReadRound
  read_stop : ReadResult → Reader → Bytes → ReadRound

module _ (c : Crates) where
  -- The `match memchr(…)`: whether the delimiter was found, the bytes used, and the buffer.
  pub take_available : Option ℕ → Bytes → Bytes → Bool × ℕ × Bytes
  take_available (some i) a buf = (true, i + 1, c.bytes.extend_from_slice buf (take (i + 1) a))
  take_available none a buf = (false, length a, c.bytes.extend_from_slice buf a)

  pub use_available : Bool × ℕ × Bytes → Reader → ℕ → ReadRound
  use_available (done, used, buf) r read =
      if done || used == 0
      then read_stop (read_ok (read + used)) (consume used r) buf
      else read_again (consume used r) (read + used) buf

  pub data ReceiveRound : Type 0 where
    receive_again : ResponseBuilder c → Reader → Bytes → ReceiveRound
    receive_stop : ParseResult → Reader → ReceiveRound

  -- `response.is_frame_in_progress() || !src.is_empty()`, at the end of the input.
  pub at_eof : ResponseBuilder c → Bytes → ParseResult
  at_eof b [] = if is_frame_in_progress b.state then err (io unexpected_eof) else ok none
  at_eof b (x ∷ src) = err (io unexpected_eof)

  pub on_response : ℕ → Reader → ParseResult × ResponseBuilder c × Bytes → ReceiveRound
  unfolding at_eof
  on_response read r (ok (some response), b, src) = receive_stop (ok (some response)) r
  on_response read r (err e, b, src) = receive_stop (err e) r
  on_response read r (panicked, b, src) = receive_stop panicked r
  on_response read r (out_of_fuel, b, src) = receive_stop out_of_fuel r
  on_response read r (ok none, b, src) =
      if read == 0 then receive_stop (at_eof b src) r else receive_again b r src

  pub on_read : ResponseBuilder c → ReadResult × Reader × Bytes → ReceiveRound
  unfolding on_response
  on_read b (read_err e, r, src) = receive_stop (err (io e)) r
  on_read b (read_out_of_fuel, r, src) = receive_stop out_of_fuel r
  on_read b (read_ok read, r, src) = on_response read r (parse_buffer c b src)

-- `memchr` is the function of the crate of that name.
module _ (c : Crates) (memchr : ℕ → Bytes → Option ℕ) where
  pub on_fill : ℕ → FillResult → Reader → ℕ → Bytes → ReadRound
  unfolding take_available use_available
  on_fill delim interrupted r read buf = read_again r read buf
  on_fill delim (failed e) r read buf = read_stop (read_err e) r buf
  on_fill delim (available a) r read buf =
      use_available c (take_available c (memchr delim a) a buf) r read

  -- The loop of `read_until`, with the number of bytes read so far.
  pub read_loop : ℕ → ℕ → Reader → ℕ → Bytes → ReadResult × Reader × Bytes
  unfolding on_fill
  read_loop zero delim r read buf = (read_out_of_fuel, r, buf)
  read_loop (suc fuel) delim r read buf =
      let (filled, r') = fill_buf r in
      elim (on_fill delim filled r' read buf) [
        | read_again r'' read' buf' ↦ read_loop fuel delim r'' read' buf'
        | read_stop result r'' buf' ↦ (result, r'', buf')
      ]

  -- Each round takes what is buffered or one result of the source.
  pub read_until : Reader → ℕ → Bytes → ReadResult × Reader × Bytes
  unfolding read_loop
  read_until r delim buf = read_loop (suc (suc (length r.fills))) delim r 0 buf

  pub receive_loop : ℕ → ResponseBuilder c → Reader → Bytes → ParseResult × Reader
  unfolding on_read read_until
  receive_loop zero b r src = (out_of_fuel, r)
  receive_loop (suc fuel) b r src = elim (on_read c b (read_until r b'\n' src)) [
    | receive_again b' r' src' ↦ receive_loop fuel b' r' src'
    | receive_stop result r' ↦ (result, r')
  ]

  -- `receive`: each round but the last reads at least one byte.
  unfoldable pub receive : Reader → ParseResult × Reader
  unfolding receive_loop
  receive r = receive_loop (suc (length (stream r))) (new c) r c.bytes.new
