-- ===== src/Builder/Invariant.antt =====
-- What `ResponseBuilder::parse` keeps true of the builder's state, and what it promises of each
-- response: these hold whatever the crates do.
use mpd_protocol.Prelude.{◌≡◌, ◌≢◌, refl, none, some, List, [], ◌∷◌, ◌++◌, Bytes}
use mpd_protocol.Std.Utf8.{Str}
use mpd_protocol.Crates.{Crates}
use mpd_protocol.Interner.{Arc}
use mpd_protocol.Parser.{Error}
use mpd_protocol.Response.{Response, single_frame}
use mpd_protocol.Builder.Keeps.{Keeps, Kept, parse_buffer-Kept}
use mpd_protocol.Response.Single.{single_frame-frames, single_frame-error}
use mpd_protocol.Builder.{
  ResponseState, initial, in_progress, list_in_progress, on_field, on_binary, completed_frames,
  finish_frame, finish, finish_error, ParseResult, ok, ResponseBuilder, parse_buffer,
}

-- A list in progress has completed a frame.
unfoldable pub WellFormed : ResponseState → Type 0
WellFormed initial = Unit {0}
WellFormed (in_progress current) = Unit {0}
WellFormed (list_in_progress current completed) = completed ≢ []

pub initial-WellFormed : WellFormed initial
unfolding WellFormed
initial-WellFormed = tt

-- The builder is as new, and `single_frame` has an item to take.
abbrev HasItem : Response → ResponseState → Type 0
HasItem r s = (s ≡ initial) × (single_frame r ≢ none)

-- What a call promises: with a response the builder is as new and the response has a first item,
-- which `single_frame` takes; otherwise the state is well formed.
unfoldable pub Promised : ParseResult → ResponseState → Type 0
Promised = Kept WellFormed HasItem

pub on_field-WellFormed :
    (k : Arc) (v : Str) (s : ResponseState) → WellFormed s → WellFormed (on_field k v s)
unfolding WellFormed on_field
on_field-WellFormed k v initial h = tt
on_field-WellFormed k v (in_progress f) h = tt
on_field-WellFormed k v (list_in_progress f fs) h = h

pub on_binary-WellFormed :
    (c : Bytes) (s : ResponseState) → WellFormed s → WellFormed (on_binary c s)
unfolding WellFormed on_binary
on_binary-WellFormed c initial h = tt
on_binary-WellFormed c (in_progress f) h = tt
on_binary-WellFormed c (list_in_progress f fs) h = h

snoc_ne : {A : Type 0} (xs : List A) (x : A) → (xs ++ x ∷ []) ≢ []
snoc_ne [] x = cc
snoc_ne (y ∷ xs) x = cc

pub finish_frame-WellFormed : (s : ResponseState) → WellFormed (finish_frame s)
unfolding WellFormed finish_frame completed_frames
finish_frame-WellFormed initial = cc
finish_frame-WellFormed (in_progress f) = cc
finish_frame-WellFormed (list_in_progress f fs) = snoc_ne fs f

pub finish-Promised :
    (s : ResponseState) → WellFormed s → Promised (ok (some (finish s).0)) (finish s).1
unfolding WellFormed Promised Kept finish
finish-Promised initial h = (refl, single_frame-frames (_ ∷ []) none cc)
finish-Promised (in_progress f) h = (refl, single_frame-frames (f ∷ []) none cc)
finish-Promised (list_in_progress f fs) h = (refl, single_frame-frames fs none h)

pub error-Promised :
    (e : Error) (s : ResponseState)
    → WellFormed s
    → Promised (ok (some (finish_error e s).0)) (finish_error e s).1
unfolding WellFormed Promised Kept finish_error
error-Promised e initial h = (refl, single_frame-error e)
error-Promised e (in_progress f) h = (refl, single_frame-error e)
error-Promised e (list_in_progress f fs) h = (refl, single_frame-frames fs (some e) h)

WellFormed-Keeps : Keeps WellFormed HasItem
unfolding Promised Kept
WellFormed-Keeps = record {
  on_field_keeps = on_field-WellFormed;
  on_binary_keeps = on_binary-WellFormed;
  finish_frame_keeps = λ s h. finish_frame-WellFormed s;
  finish_answers = finish-Promised;
  finish_error_answers = error-Promised;
}

-- Whatever the crates do, a call of `ResponseBuilder::parse` at a well-formed state leaves a
-- well-formed state; with a response the state is the initial one and the response has a first item,
-- so that its `single_frame` does not panic.
pub parse_buffer-Promised :
    {c : Crates} (b : ResponseBuilder c) (src : Bytes)
    → WellFormed b.state
    → Promised (parse_buffer c b src).0 (parse_buffer c b src).1.state
unfolding Promised
parse_buffer-Promised {c} b src h = parse_buffer-Kept WellFormed-Keeps c b src h
