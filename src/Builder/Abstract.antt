-- ===== src/Builder/Abstract.antt =====
-- The responses of the protocol, described without the builder of src/response.rs: what a sequence of
-- messages replies. A section is what a frame shows: its fields in order, and its binary data.
use mpd_protocol.Prelude.{◌≡◌, Option, none, some, List, [], ◌∷◌, ◌++◌, map, Bytes}
use mpd_protocol.Std.Utf8.{Str}
use mpd_protocol.Parser.{Error}
use mpd_protocol.Parser.Wire.{Message, frame_end, response_end, ack, pair, blob, Wire}
use mpd_protocol.Parser.Complete.{Unambiguous}
use mpd_protocol.Frame.{Frame, collect}
use mpd_protocol.Response.{Response}
use mpd_protocol.Builder.{ResponseState, initial, in_progress, list_in_progress}

pub record Section : Type 0 where
  pub pairs : List (Str × Str)
  pub binary : Option Bytes

pub record Reply : Type 0 where
  pub sections : List Section
  pub error : Option Error

-- The sections that have been closed, and the one that is open.
pub record Progress : Type 0 where
  pub closed : List Section
  pub current : Section

abbrev pub blank : Section
blank = record { pairs = []; binary = none }

abbrev pub nothing_yet : Progress
nothing_yet = record { closed = []; current = blank }

-- A response that was never divided is its one section; else the open section is not part of it.
unfoldable pub settled : List Section → Section → List Section
settled [] s = s ∷ []
settled (x ∷ xs) s = x ∷ xs

pub data Advance : Type 0 where
  continues : Progress → Advance
  replies : Reply → Advance

-- What a message does.
unfoldable pub advance : Message → Progress → Advance
unfolding settled
advance (pair k v) p = continues (record p {
  current = record { pairs = p.current.pairs ++ (k, v) ∷ []; binary = p.current.binary };
})
advance (blob b) p =
    continues (record p { current = record { pairs = p.current.pairs; binary = some b } })
advance frame_end p = continues (record { closed = p.closed ++ p.current ∷ []; current = blank })
advance response_end p = replies (record { sections = settled p.closed p.current; error = none })
advance (ack e) p = replies (record { sections = p.closed; error = some e })

-- The messages, from a progress on, end in the reply.
pub data Replies (y : Reply) : Progress → List Message → Type 0 where
  now : {p : Progress} (m : Message) → advance m p ≡ replies y → Replies y p (m ∷ [])
  later :
      {p : Progress} (m : Message) (ms : List Message) (q : Progress)
      → advance m p ≡ continues q
      → Replies y q ms
      → Replies y p (m ∷ ms)

-- The bytes are the messages, and then the rest.
pub data OnWire (r : Bytes) : Bytes → List Message → Type 0 where
  stop : OnWire r r []
  more :
      {i : Bytes} (j : Bytes) (m : Message) (ms : List Message)
      → Wire i j m
      → Unambiguous m
      → OnWire r j ms
      → OnWire r i (m ∷ ms)

-- What the builder's data shows.
abbrev pub shown_frame : Frame → Section
shown_frame f = record { pairs = collect f.fields; binary = f.binary }

abbrev pub shown_response : Response → Reply
shown_response r = record { sections = map shown_frame r.frames; error = r.error }

unfoldable pub progress : ResponseState → Progress
progress initial = nothing_yet
progress (in_progress f) = record { closed = []; current = shown_frame f }
progress (list_in_progress f fs) = record { closed = map shown_frame fs; current = shown_frame f }
