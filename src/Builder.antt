-- ===== src/Builder.antt =====
-- `ResponseBuilder` of src/response.rs: the state machine that assembles responses, and the loop
-- that feeds it with the messages of a buffer.
pub mod Messages
pub mod Waiting
pub mod Progress
pub mod Streaming
pub mod Keeps
pub mod Invariant
pub mod Abstract
pub mod Encode
pub mod Print
pub mod Refines
pub mod Interned
use mpd_protocol.Prelude.{
  ℕ, zero, suc, ◌+◌, ◌-◌, Bool, true, false, Option, none, some, List, [], ◌∷◌, ◌++◌, leb,
  if◌then◌else◌, length, Bytes, ◌>>=◌,
}
use mpd_protocol.Std.Utf8.{Str}
use mpd_protocol.Std.Number.{u64_max}
use mpd_protocol.Errors.{MpdProtocolError, invalid_message}
use mpd_protocol.Nom.Laws.{IResult, done, incomplete, error, failure}
use mpd_protocol.Crates.{Crates}
use mpd_protocol.BytesMut.{BytesOps}
use mpd_protocol.Interner.{Arc, InternedKeys, no_keys}
use mpd_protocol.Parser.{
  Error, ParsedComponent, end_of_frame, end_of_response, error_response, field, binary_field, parse,
}
use mpd_protocol.Frame.{Frame, empty as empty_frame, push_field}
use mpd_protocol.Response.{Response, empty as empty_response}

pub data ResponseState : Type 0 where
  initial : ResponseState
  in_progress : Frame → ResponseState
  list_in_progress : Frame → List Frame → ResponseState

abbrev add_field : Arc → Str → Frame → Frame
add_field key value frame = record frame { fields = push_field key value frame.fields }

abbrev set_binary : Bytes → Frame → Frame
set_binary content frame = record frame { binary = some content }

-- `ResponseBuilder::field`
unfoldable pub on_field : Arc → Str → ResponseState → ResponseState
on_field key value initial = in_progress (add_field key value empty_frame)
on_field key value (in_progress current) = in_progress (add_field key value current)
on_field key value (list_in_progress current completed) =
    list_in_progress (add_field key value current) completed

-- `ResponseBuilder::binary`
unfoldable pub on_binary : Bytes → ResponseState → ResponseState
on_binary content initial = in_progress (set_binary content empty_frame)
on_binary content (in_progress current) = in_progress (set_binary content current)
on_binary content (list_in_progress current completed) =
    list_in_progress (set_binary content current) completed

-- The frames that `finish_frame` has completed.
unfoldable pub completed_frames : ResponseState → List Frame
completed_frames initial = empty_frame ∷ []
completed_frames (in_progress current) = current ∷ []
completed_frames (list_in_progress current completed) = completed ++ current ∷ []

-- `ResponseBuilder::finish_frame`
unfoldable pub finish_frame : ResponseState → ResponseState
unfolding completed_frames
finish_frame s = list_in_progress empty_frame (completed_frames s)

-- `ResponseBuilder::finish`: the response, and the state after it.
unfoldable pub finish : ResponseState → Response × ResponseState
finish initial = (empty_response, initial)
finish (in_progress current) = (record { frames = current ∷ []; error = none }, initial)
finish (list_in_progress current completed) = (record { frames = completed; error = none }, initial)

-- `ResponseBuilder::error`
unfoldable pub finish_error : Error → ResponseState → Response × ResponseState
finish_error e initial = (record { frames = []; error = some e }, initial)
finish_error e (in_progress current) = (record { frames = []; error = some e }, initial)
finish_error e (list_in_progress current completed) =
    (record { frames = completed; error = some e }, initial)

-- What `ResponseBuilder::parse` returns, a panic, or the loop's fuel ran out.
pub data ParseResult : Type 0 where
  ok : Option Response → ParseResult
  err : MpdProtocolError → ParseResult
  panicked out_of_fuel : ParseResult

-- `a - b` and `a + b` on `usize`; they panic where the result does not fit.
abbrev pub checked_sub : ℕ → ℕ → Option ℕ
checked_sub a b = if leb b a then some (a - b) else none

abbrev pub checked_add : ℕ → ℕ → Option ℕ
checked_add a b = if leb (a + b) u64_max then some (a + b) else none

module _ (c : Crates) where
  pub record ResponseBuilder : Type 0 where
    pub fields : InternedKeys c.set
    pub state : ResponseState

  -- `ResponseBuilder::new`
  abbrev pub new : ResponseBuilder
  new = record { fields = no_keys c.set; state = initial }

  -- `Default`
  abbrev pub default : ResponseBuilder
  default = new

  -- How one round of the loop ends: it goes on with the buffer that is left, or it returns.
  pub data Round : Type 0 where
    continue_with : ResponseBuilder → Bytes → Round
    return_ : ParseResult → ResponseBuilder → Bytes → Round

  -- `msg.advance(msg.len() - (data_length + 1)); msg.truncate(data_length)`
  payload : Bytes → ℕ → Option Bytes
  payload msg data_length = do
    tail ← checked_add data_length 1
    start ← checked_sub (length msg) tail
    rest ← c.bytes.advance msg start
    some (c.bytes.truncate rest data_length)

  binary_round : Option Bytes → ResponseBuilder → Bytes → Round
  binary_round none b src = return_ panicked b src
  binary_round (some content) b src =
      continue_with (record b { state = on_binary content b.state }) src

  -- The `match component`, on the message that was split off and the buffer after it.
  pub dispatch : ParsedComponent → Bytes → ResponseBuilder → Bytes → Round
  unfolding payload binary_round
  dispatch (field key value) msg b src =
      continue_with (record b { state = on_field key value b.state }) src
  dispatch (binary_field data_length) msg b src = binary_round (payload msg data_length) b src
  dispatch (error_response e) msg b src =
      let (response, state) = finish_error e b.state in
      return_ (ok (some response)) (record b { state = state }) src
  dispatch end_of_frame msg b src = continue_with (record b { state = finish_frame b.state }) src
  dispatch end_of_response msg b src =
      let (response, state) = finish b.state in
      return_ (ok (some response)) (record b { state = state }) src

  split_message : Bytes → Bytes → Option (Bytes × Bytes)
  split_message src remaining = do
    msg_end ← checked_sub (length src) (length remaining)
    c.bytes.split_to src msg_end

  take_message : Option (Bytes × Bytes) → ParsedComponent → ResponseBuilder → Bytes → Round
  unfolding dispatch
  take_message none component b src = return_ panicked b src
  take_message (some (msg, src')) component b src = dispatch component msg b src'

  on_parsed : IResult ParsedComponent × InternedKeys c.set → ResponseState → Bytes → Round
  unfolding take_message split_message
  on_parsed (incomplete, keys) s src = return_ (ok none) (record { fields = keys; state = s }) src
  on_parsed (error, keys) s src =
      return_ (err invalid_message) (record { fields = keys; state = s }) src
  on_parsed (failure, keys) s src =
      return_ (err invalid_message) (record { fields = keys; state = s }) src
  on_parsed (done remaining component, keys) s src =
      take_message (split_message src remaining) component (record { fields = keys; state = s }) src

  -- The body of the loop, at a buffer that is not empty.
  pub round : ResponseBuilder → Bytes → Round
  unfolding on_parsed
  round b src = on_parsed (parse c.nom c.set src b.fields) b.state src

  -- `while !src.is_empty()`, with fuel.
  pub parse_loop : ℕ → ResponseBuilder → Bytes → ParseResult × ResponseBuilder × Bytes
  parse_loop zero b src = (out_of_fuel, b, src)
  parse_loop (suc fuel) b [] = (ok none, b, [])
  parse_loop (suc fuel) b (x ∷ src) = elim (round b (x ∷ src)) [
    | continue_with b' src' ↦ parse_loop fuel b' src'
    | return_ r b' src' ↦ (r, b', src')
  ]

  -- `ResponseBuilder::parse`. Each round takes at least one byte, so the length of the buffer is
  -- fuel enough.
  unfoldable pub parse_buffer : ResponseBuilder → Bytes → ParseResult × ResponseBuilder × Bytes
  unfolding parse_loop round
  parse_buffer b src = parse_loop (suc (length src)) b src

-- `is_frame_in_progress`
unfoldable pub is_frame_in_progress : ResponseState → Bool
is_frame_in_progress initial = false
is_frame_in_progress _ = true
