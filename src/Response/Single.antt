-- ===== src/Response/Single.antt =====
-- `Response::single_frame` (src/response.rs): when its `unwrap` succeeds.
use mpd_protocol.Prelude.{◌≢◌, refl, Option, none, some, List, [], ◌∷◌}
use mpd_protocol.Parser.{Error}
use mpd_protocol.Frame.{Frame}
use mpd_protocol.Response.{single_frame, next, next_frame, take_error}

pub single_frame-frames :
    (fs : List Frame) (e : Option Error)
    → fs ≢ []
    → single_frame (record { frames = fs; error = e }) ≢ none
unfolding single_frame next next_frame
single_frame-frames [] e h = absurd (h refl)
single_frame-frames (f ∷ fs) e h = cc

pub single_frame-error : (e : Error) → single_frame (record { frames = []; error = some e }) ≢ none
unfolding single_frame next next_frame take_error
single_frame-error e = cc
