-- ===== src/Response.antt =====
-- src/response.rs: a complete response, and the iterators over its frames.
pub mod Iteration
pub mod Single
pub mod Borrowed
use mpd_protocol.Prelude.{
  ℕ, ◌+◌, Bool, true, false, not, Option, none, some, List, [], ◌∷◌, ◌++◌, if◌then◌else◌, length,
}
use mathlib.Core.List.{reverse}
use mpd_protocol.Parser.{Error}
use mpd_protocol.Frame.{Frame, empty as empty_frame}

pub record Response : Type 0 where
  pub frames : List Frame
  pub error : Option Error

-- `Response::empty`
abbrev pub empty : Response
empty = record { frames = empty_frame ∷ []; error = none }

abbrev pub is_some {ℓ} : {A : Type ℓ} → Option A → Bool
is_some none = false
is_some (some a) = true

pub is_error : Response → Bool
is_error r = is_some r.error

pub is_success : Response → Bool
unfolding is_error
is_success r = not (is_error r)

unfoldable pub successful_frames : Response → ℕ
successful_frames r = length r.frames

-- `Result<Frame, Error>`
pub data FrameResult : Type 0 where
  ok : Frame → FrameResult
  err : Error → FrameResult

-- `Frames`: the frames that the inner iterator has yet to yield, and the error. `Response/Borrowed` has
-- `FramesRef`, which runs the same code.
pub record Frames : Type 0 where
  pub frames : List Frame
  pub error : Option Error

-- `into_iter` of `IntoIterator for Response`
abbrev pub frames_iter : Response → Frames
frames_iter r = record { frames = r.frames; error = r.error }

-- `self.error.take().map(Err)`
take_error : Option Error → Option FrameResult
take_error none = none
take_error (some e) = some (err e)

next_frame : List Frame → Option Error → Option FrameResult × Frames
next_frame (f ∷ fs) error = (some (ok f), record { frames = fs; error = error })
next_frame [] error = (take_error error, record { frames = []; error = none })

-- `Frames::next`
unfoldable pub next : Frames → Option FrameResult × Frames
unfolding next_frame take_error
next it = next_frame it.frames it.error

-- The inner iterator's `next_back`, on the frames from the last to the first.
last_frame : List Frame → Option FrameResult × Frames
last_frame [] = (none, record { frames = []; error = none })
last_frame (f ∷ fs) = (some (ok f), record { frames = reverse fs; error = none })

next_back_frame : List Frame → Option Error → Option FrameResult × Frames
unfolding last_frame
next_back_frame fs (some e) = (some (err e), record { frames = fs; error = none })
next_back_frame fs none = last_frame (reverse fs)

-- `Frames::next_back`
pub next_back : Frames → Option FrameResult × Frames
unfolding next_back_frame
next_back it = next_back_frame it.frames it.error

-- `size_hint`: the lower and the upper bound are the same number.
unfoldable pub size_hint : Frames → ℕ × Option ℕ
size_hint it = let len = length it.frames + (if is_some it.error then 1 else 0) in (len, some len)

-- `Response::single_frame`; `none` is the panic of `unwrap`.
unfoldable pub single_frame : Response → Option FrameResult
unfolding next
single_frame r = (next (frames_iter r)).0
