-- ===== src/Builder/Keeps.antt =====
-- Invariants of the builder's state (src/response.rs): what every operation keeps, `ResponseBuilder::parse`
-- keeps, whatever the crates do.
use mpd_protocol.Prelude.{ℕ, zero, suc, Option, none, some, [], ◌∷◌, length, Bytes}
use mpd_protocol.Nom.Laws.{IResult, done, incomplete, error, failure}
use mpd_protocol.Std.Utf8.{Str}
use mpd_protocol.Crates.{Crates}
use mpd_protocol.Interner.{InternedKeys, Arc}
use mpd_protocol.Parser.{
  ParsedComponent, end_of_frame, end_of_response, error_response, field, binary_field, Error, parse,
}
use mpd_protocol.Response.{Response}
use mpd_protocol.Builder.{
  ResponseState, on_field, on_binary, finish_frame, finish, finish_error, ParseResult, ok,
  ResponseBuilder, Round, continue_with, return_, payload, binary_round, dispatch, split_message,
  take_message, on_parsed, round, parse_loop, parse_buffer,
}

-- Every operation keeps the state good, and a response that is made of a good state is an answer.
pub record Keeps (Good : ResponseState → Type 0) (Answer : Response → ResponseState → Type 0)
    : Type 0 where
  pub on_field_keeps : (k : Arc) (v : Str) (s : ResponseState) → Good s → Good (on_field k v s)
  pub on_binary_keeps : (content : Bytes) (s : ResponseState) → Good s → Good (on_binary content s)
  pub finish_frame_keeps : (s : ResponseState) → Good s → Good (finish_frame s)
  pub finish_answers : (s : ResponseState) → Good s → Answer (finish s).0 (finish s).1
  pub finish_error_answers :
      (e : Error) (s : ResponseState) → Good s → Answer (finish_error e s).0 (finish_error e s).1

-- What a call leaves: an answer, or a state that is still good.
unfoldable pub Kept :
    (Good : ResponseState → Type 0) (Answer : Response → ResponseState → Type 0)
    → ParseResult
    → ResponseState
    → Type 0
Kept Good Answer (ok (some r)) s = Answer r s
Kept Good Answer _ s = Good s

module _ {Good : ResponseState → Type 0} {Answer : Response → ResponseState → Type 0}
    (keeps : Keeps Good Answer) (c : Crates) where
  -- What a round keeps and promises.
  RoundKept : Round c → Type 0
  RoundKept (continue_with b src) = Good b.state
  RoundKept (return_ r b src) = Kept Good Answer r b.state

  binary-Kept :
      (m : Option Bytes) (b : ResponseBuilder c) (src : Bytes)
      → Good b.state
      → RoundKept (binary_round c m b src)
  unfolding binary_round RoundKept Kept
  binary-Kept none b src h = h
  binary-Kept (some content) b src h = keeps.on_binary_keeps content b.state h

  dispatch-Kept :
      (p : ParsedComponent) (msg : Bytes) (b : ResponseBuilder c) (src : Bytes)
      → Good b.state
      → RoundKept (dispatch c p msg b src)
  unfolding dispatch RoundKept Kept
  dispatch-Kept end_of_frame msg b src h = keeps.finish_frame_keeps b.state h
  dispatch-Kept end_of_response msg b src h = keeps.finish_answers b.state h
  dispatch-Kept (error_response e) msg b src h = keeps.finish_error_answers e b.state h
  dispatch-Kept (field k v) msg b src h = keeps.on_field_keeps k v b.state h
  dispatch-Kept (binary_field n) msg b src h = binary-Kept (payload c msg n) b src h

  take_message-Kept :
      (m : Option (Bytes × Bytes)) (p : ParsedComponent) (b : ResponseBuilder c) (src : Bytes)
      → Good b.state
      → RoundKept (take_message c m p b src)
  unfolding take_message RoundKept Kept
  take_message-Kept none p b src h = h
  take_message-Kept (some (msg, rest)) p b src h = dispatch-Kept p msg b rest h

  on_parsed-Kept :
      (res : IResult ParsedComponent) (keys : InternedKeys c.set) (s : ResponseState) (src : Bytes)
      → Good s
      → RoundKept (on_parsed c (res, keys) s src)
  unfolding on_parsed RoundKept Kept
  on_parsed-Kept incomplete keys s src h = h
  on_parsed-Kept error keys s src h = h
  on_parsed-Kept failure keys s src h = h
  on_parsed-Kept (done r p) keys s src h =
      take_message-Kept (split_message c src r) p (record { fields = keys; state = s }) src h

  round-Kept : (b : ResponseBuilder c) (src : Bytes) → Good b.state → RoundKept (round c b src)
  unfolding round
  round-Kept b src h =
      on_parsed-Kept (parse c.nom c.set src b.fields).0 (parse c.nom c.set src b.fields).1 b.state
        src h

  loop-Kept :
      (fuel : ℕ) (b : ResponseBuilder c) (src : Bytes)
      → Good b.state
      → Kept Good Answer (parse_loop c fuel b src).0 (parse_loop c fuel b src).1.state
  unfolding parse_loop RoundKept
  loop-Kept zero b src h = unfold Kept in h
  loop-Kept (suc fuel) b [] h = unfold Kept in h
  loop-Kept (suc fuel) b (x ∷ src) h =
      by_round (round c b (x ∷ src)) (round-Kept b (x ∷ src) h) (loop-Kept fuel)
    where
      by_round :
          (r : Round c)
          → RoundKept r
          → ((b' : ResponseBuilder c) (src' : Bytes)
              → Good b'.state
              → Kept Good Answer (parse_loop c fuel b' src').0 (parse_loop c fuel b' src').1.state)
          → let end : ParseResult × ResponseBuilder c × Bytes = elim r [
            | continue_with b' src' ↦ parse_loop c fuel b' src'
            | return_ r b' src' ↦ (r, b', src')
          ] in
            Kept Good Answer end.0 end.1.state
      by_round (continue_with b' src') h ih = ih b' src' h
      by_round (return_ r b' src') h ih = h

  -- A call at a good state.
  pub parse_buffer-Kept :
      (b : ResponseBuilder c) (src : Bytes)
      → Good b.state
      → Kept Good Answer (parse_buffer c b src).0 (parse_buffer c b src).1.state
  unfolding parse_buffer
  parse_buffer-Kept b src h = loop-Kept (suc (length src)) b src h
