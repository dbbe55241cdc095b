-- ===== src/Builder/Refines.antt =====
-- The builder of src/response.rs against the abstract replies of `Builder/Abstract`.
pub mod Run
pub mod Waits
pub mod Prefix
use mpd_protocol.Prelude.{
  ℕ, zero, suc, ◌<◌, ◌≡◌, ◌≢◌, refl, sym, ap, ◌∙◌, Option, none, some, List, [], ◌∷◌, ◌++◌, map,
  arith, length, Bytes,
}
use mathlib.Core.List.{map-append}
use mpd_protocol.Std.Utf8.{Str}
use mpd_protocol.Std.Number.{u64_max}
use mpd_protocol.Nom.Reference.{nom}
use mpd_protocol.Crates.{Crates, CratesLaws, with_set, by_reference}
use mpd_protocol.Interner.{Arc, HashSetOps, HashSetLaws}
use mpd_protocol.Frame.{Frame, collect, push_field}
use mpd_protocol.Frame.Iteration.{collect-append}
use mpd_protocol.Response.{Response}
use mpd_protocol.Parser.{
  Error, ParsedComponent, end_of_frame, end_of_response, error_response, field, binary_field,
}
use mpd_protocol.Parser.Wire.{Message, frame_end, response_end, ack, pair, blob, Wire, Says}
use mpd_protocol.Parser.Complete.{Wire-Found}
use mpd_protocol.Builder.{
  ResponseState, initial, in_progress, list_in_progress, on_field, on_binary, completed_frames,
  finish_frame, finish, finish_error, ParseResult, ok, ResponseBuilder, Round, continue_with,
  return_, dispatch, round, parse_buffer,
}
use mpd_protocol.Builder.Invariant.{WellFormed}
use mpd_protocol.Builder.Messages.{deliver, round-deliver, Wire-length}
use mpd_protocol.Builder.Progress.{follow, parse_buffer-round}
use mpd_protocol.Builder.Abstract.{
  Section, Reply, Progress, blank, nothing_yet, settled, Advance, continues, replies, advance,
  Replies, now, later, OnWire, stop, more, shown_frame, shown_response, progress,
}

shown-add_field :
    (k : Arc) (v : Str) (f : Frame)
    → shown_frame (record f { fields = push_field k v f.fields })
      ≡ record { pairs = collect f.fields ++ (k.text, v) ∷ []; binary = f.binary }
shown-add_field k v f =
    ap (λ pairs. record { pairs = pairs; binary = f.binary })
      (collect-append f.fields (some (k, v) ∷ []))

-- Each operation of the builder does what the abstract step does.
pub field-advance :
    (k : Arc) (v : Str) (s : ResponseState)
    → advance (pair k.text v) (progress s) ≡ continues (progress (on_field k v s))
unfolding advance progress on_field
field-advance k v initial = refl
field-advance k v (in_progress f) =
    ap (λ s. continues (record { closed = []; current = s })) (sym (shown-add_field k v f))
field-advance k v (list_in_progress f fs) =
    ap (λ s. continues (record { closed = map shown_frame fs; current = s }))
      (sym (shown-add_field k v f))

pub binary-advance :
    (b : Bytes) (s : ResponseState)
    → advance (blob b) (progress s) ≡ continues (progress (on_binary b s))
unfolding advance progress on_binary
binary-advance b initial = refl
binary-advance b (in_progress f) = refl
binary-advance b (list_in_progress f fs) = refl

pub frame_end-advance :
    (s : ResponseState) → advance frame_end (progress s) ≡ continues (progress (finish_frame s))
unfolding advance progress finish_frame completed_frames
frame_end-advance initial = refl
frame_end-advance (in_progress f) = refl
frame_end-advance (list_in_progress f fs) =
    ap (λ c. continues (record { closed = c; current = blank }))
      (sym (map-append shown_frame fs (f ∷ [])))

settled-frames :
    (fs : List Frame) (f : Frame)
    → fs ≢ []
    → settled (map shown_frame fs) (shown_frame f) ≡ map shown_frame fs
unfolding settled
settled-frames [] f h = absurd (h refl)
settled-frames (x ∷ fs) f h = refl

pub finish-advance :
    (s : ResponseState)
    → WellFormed s
    → advance response_end (progress s) ≡ replies (shown_response (finish s).0)
unfolding advance progress finish WellFormed settled
finish-advance initial h = refl
finish-advance (in_progress f) h = refl
finish-advance (list_in_progress f fs) h =
    ap (λ ss. replies (record { sections = ss; error = none })) (settled-frames fs f h)

pub error-advance :
    (e : Error) (s : ResponseState)
    → advance (ack e) (progress s) ≡ replies (shown_response (finish_error e s).0)
unfolding advance progress finish_error
error-advance e initial = refl
error-advance e (in_progress f) = refl
error-advance e (list_in_progress f fs) = refl
