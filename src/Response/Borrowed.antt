-- ===== src/Response/Borrowed.antt =====
-- `FramesRef` of src/response.rs, the borrowing iterator, and the two `IntoIterator`s of a response. A
-- reference is what it refers to, which nobody changes while it is borrowed.
use mpd_protocol.Prelude.{
  ℕ, ◌+◌, ◌≡◌, refl, Option, none, some, List, [], ◌∷◌, if◌then◌else◌, length,
}
use mathlib.Core.List.{reverse}
use mpd_protocol.Parser.{Error}
use mpd_protocol.Frame.{Frame}
use mpd_protocol.Response.{
  Response, is_some, FrameResult, ok, err, Frames, take_error, next_frame, last_frame,
  next_back_frame, next, next_back, size_hint,
}

pub record FramesRef : Type 0 where
  pub frames : List Frame
  pub error : Option Error

-- `Response::frames`
unfoldable pub frames_ref : Response → FramesRef
frames_ref r = record { frames = r.frames; error = r.error }

-- `IntoIterator for &Response`
pub into_iter_ref : Response → FramesRef
unfolding frames_ref
into_iter_ref r = frames_ref r

-- `IntoIterator for Response`
unfoldable pub into_iter : Response → Frames
into_iter r = record { frames = r.frames; error = r.error }

-- `self.error.take().map(Err)`
take_error_ref : List Frame → Option Error → Option FrameResult × FramesRef
take_error_ref fs none = (none, record { frames = fs; error = none })
take_error_ref fs (some e) = (some (err e), record { frames = fs; error = none })

next_of : List Frame → Option Error → Option FrameResult × FramesRef
unfolding take_error_ref
next_of (f ∷ fs) error = (some (ok f), record { frames = fs; error = error })
next_of [] error = take_error_ref [] error

-- `FramesRef::next`
unfoldable pub next_ref : FramesRef → Option FrameResult × FramesRef
unfolding next_of
next_ref it = next_of it.frames it.error

-- `self.frames.next_back().map(Ok)`, on the frames from the last to the first.
back_of : List Frame → Option FrameResult × FramesRef
back_of [] = (none, record { frames = []; error = none })
back_of (f ∷ fs) = (some (ok f), record { frames = reverse fs; error = none })

next_back_of : List Frame → Option Error → Option FrameResult × FramesRef
unfolding back_of
next_back_of fs (some e) = (some (err e), record { frames = fs; error = none })
next_back_of fs none = back_of (reverse fs)

-- `FramesRef::next_back`
pub next_back_ref : FramesRef → Option FrameResult × FramesRef
unfolding next_back_of
next_back_ref it = next_back_of it.frames it.error

-- `FramesRef::size_hint`
unfoldable pub size_hint_ref : FramesRef → ℕ × Option ℕ
size_hint_ref it =
    let len = length it.frames + (if is_some it.error then 1 else 0) in (len, some len)

-- The owning iterator with the same frames and error.
abbrev pub to_owned : FramesRef → Frames
to_owned it = record { frames = it.frames; error = it.error }

back-last :
    (fs : List Frame)
    → ((back_of fs).0 ≡ (last_frame fs).0) × (to_owned (back_of fs).1 ≡ (last_frame fs).1)
unfolding back_of last_frame
back-last [] = (refl, refl)
back-last (f ∷ fs) = (refl, refl)

-- A step of the borrowing iterator gives what the step of the owning iterator gives, and leaves the
-- iterators in step, from either end; so do their size hints.
ref-owned :
    (it : FramesRef)
    → ((next_ref it).0 ≡ (next (to_owned it)).0)
      × (to_owned (next_ref it).1 ≡ (next (to_owned it)).1)
      × ((next_back_ref it).0 ≡ (next_back (to_owned it)).0)
      × (to_owned (next_back_ref it).1 ≡ (next_back (to_owned it)).1)
      × (size_hint_ref it ≡ size_hint (to_owned it))
unfolding next_ref next_of take_error_ref next next_frame take_error next_back_ref next_back_of
    next_back next_back_frame size_hint_ref size_hint
ref-owned it = by_parts it.frames it.error
  where
    by_parts :
        (fs : List Frame) (o : Option Error)
        → let it : FramesRef = record { frames = fs; error = o } in
          ((next_ref it).0 ≡ (next (to_owned it)).0)
          × (to_owned (next_ref it).1 ≡ (next (to_owned it)).1)
          × ((next_back_ref it).0 ≡ (next_back (to_owned it)).0)
          × (to_owned (next_back_ref it).1 ≡ (next_back (to_owned it)).1)
          × (size_hint_ref it ≡ size_hint (to_owned it))
    by_parts [] none = (refl, refl, (back-last []).0, (back-last []).1, refl)
    by_parts [] (some e) = (refl, refl, refl, refl, refl)
    by_parts (f ∷ fs) none =
        (refl, refl, (back-last (reverse (f ∷ fs))).0, (back-last (reverse (f ∷ fs))).1, refl)
    by_parts (f ∷ fs) (some e) = (refl, refl, refl, refl, refl)
