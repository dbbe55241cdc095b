-- ===== src/Tests/Source/Response.antt =====
-- The unit tests of the iterators in src/response.rs.
use mpd_protocol.Prelude.{
  ℕ, ◌≡◌, refl, Bool, true, false, ◌&&◌, ◌==◌, equal, Option, none, some, [], ◌∷◌,
}
use mpd_protocol.Parser.{Error}
use mpd_protocol.Frame.{Slot, Frame, into_iter_next}
use mpd_protocol.Frame as Frames
use mpd_protocol.Response.{Response, FrameResult, next, size_hint}
use mpd_protocol.Response as Responses
use mpd_protocol.Response.Borrowed.{into_iter, frames_ref, next_ref, size_hint_ref}
use mpd_protocol.Equality.{same, response_eq, state_eq, frame_eq, error_eq}

-- `Error::default`
abbrev no_error : Error
no_error = record { code = 0; command_index = 0; current_command = none; message = [] }

abbrev is_frame : Option FrameResult → Frame → Bool
is_frame (some (Responses.ok f)) g = same f g
is_frame _ g = false

abbrev is_failure : Option FrameResult → Error → Bool
is_failure (some (Responses.err e)) e' = same e e'
is_failure _ e' = false

abbrev has_size : ℕ → ℕ × Option ℕ → Bool
has_size n (lower, some upper) = lower == n && upper == n
has_size n (lower, none) = false

abbrev three_frames : Response
three_frames = record {
  frames = Frames.empty ∷ Frames.empty ∷ Frames.empty ∷ [];
  error = some no_error;
}

abbrev owned_frames_iter : Bool
owned_frames_iter =
    let it = into_iter three_frames in
    let (a, it1) = next it in
    let (b, it2) = next it1 in
    let (c, it3) = next it2 in
    let (d, it4) = next it3 in
    has_size 4 (size_hint it)
    && is_frame a Frames.empty
    && has_size 3 (size_hint it1)
    && is_frame b Frames.empty
    && has_size 2 (size_hint it2)
    && is_frame c Frames.empty
    && has_size 1 (size_hint it3)
    && is_failure d no_error
    && has_size 0 (size_hint it4)

owned_frames_iter_passes : owned_frames_iter ≡ true
unfolding next size_hint into_iter equal
owned_frames_iter_passes = refl

abbrev borrowed_frames_iter : Bool
borrowed_frames_iter =
    let it = frames_ref three_frames in
    let (a, it1) = next_ref it in
    let (b, it2) = next_ref it1 in
    let (c, it3) = next_ref it2 in
    let (d, it4) = next_ref it3 in
    has_size 4 (size_hint_ref it)
    && is_frame a Frames.empty
    && has_size 3 (size_hint_ref it1)
    && is_frame b Frames.empty
    && has_size 2 (size_hint_ref it2)
    && is_frame c Frames.empty
    && has_size 1 (size_hint_ref it3)
    && is_failure d no_error
    && has_size 0 (size_hint_ref it4)

borrowed_frames_iter_passes : borrowed_frames_iter ≡ true
unfolding frames_ref next_ref size_hint_ref equal
borrowed_frames_iter_passes = refl
