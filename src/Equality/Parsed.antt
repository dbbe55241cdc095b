-- ===== src/Equality/Parsed.antt =====
-- Responses that `ResponseBuilder::parse` returns (src/response.rs), compared.
use mpd_protocol.Prelude.{
  ◌≡◌, ◌↔◌, refl, sym, ap, ◌∙◌, subst, true, Option, none, some, List, [], ◌∷◌, map, All,
  All-append, Bytes,
}
use mpd_protocol.Crates.{Crates}
use mpd_protocol.Std.Utf8.{Str}
use mpd_protocol.Interner.{Arc}
use mpd_protocol.Parser.{Error}
use mpd_protocol.Frame.{Slot, Frame, collect, push_field}
use mpd_protocol.Response.{Response}
use mpd_protocol.Builder.{
  ResponseState, initial, in_progress, list_in_progress, on_field, on_binary, completed_frames,
  finish_frame, finish, finish_error, ok, ResponseBuilder, parse_buffer,
}
use mpd_protocol.Builder.Keeps.{Keeps, Kept, parse_buffer-Kept}
use mpd_protocol.Builder.Abstract.{Section, shown_frame, shown_response}
use mpd_protocol.Equality.{same, response_eq}
use mpd_protocol.Equality.Laws.{SeenFrame, seen_slot, seen_frame, response-Compares}

-- No field was removed.
unfoldable pub IsPresent : Slot → Type 0
IsPresent none = ⊥
IsPresent (some field) = Unit {0}

abbrev pub IsWhole : Frame → Type 0
IsWhole f = All IsPresent f.fields

abbrev pub AllWhole : ResponseState → Type 0
AllWhole initial = Unit {0}
AllWhole (in_progress f) = IsWhole f
AllWhole (list_in_progress f fs) = IsWhole f × All IsWhole fs

push_field-IsPresent :
    (k : Arc) (v : Str) (fs : List Slot) → All IsPresent fs → All IsPresent (push_field k v fs)
unfolding IsPresent
push_field-IsPresent k v fs h = All-append IsPresent fs (some (k, v) ∷ []) h (tt, tt)

AllWhole-Keeps : Keeps AllWhole (λ r s. All IsWhole r.frames)
unfolding on_field on_binary finish_frame completed_frames finish finish_error
AllWhole-Keeps = record {
  on_field_keeps = field;
  on_binary_keeps = binary;
  finish_frame_keeps = frame;
  finish_answers = finished;
  finish_error_answers = failed;
}
  where
    field : (k : Arc) (v : Str) (s : ResponseState) → AllWhole s → AllWhole (on_field k v s)
    field k v initial h = push_field-IsPresent k v [] tt
    field k v (in_progress f) h = push_field-IsPresent k v f.fields h
    field k v (list_in_progress f fs) (h, hs) = (push_field-IsPresent k v f.fields h, hs)

    binary : (content : Bytes) (s : ResponseState) → AllWhole s → AllWhole (on_binary content s)
    binary content initial h = tt
    binary content (in_progress f) h = h
    binary content (list_in_progress f fs) h = h

    frame : (s : ResponseState) → AllWhole s → AllWhole (finish_frame s)
    frame initial h = (tt, (tt, tt))
    frame (in_progress f) h = (tt, (h, tt))
    frame (list_in_progress f fs) (h, hs) = (tt, All-append IsWhole fs (f ∷ []) hs (h, tt))

    finished : (s : ResponseState) → AllWhole s → All IsWhole (finish s).0.frames
    finished initial h = (tt, tt)
    finished (in_progress f) h = (h, tt)
    finished (list_in_progress f fs) (h, hs) = hs

    failed : (e : Error) (s : ResponseState) → AllWhole s → All IsWhole (finish_error e s).0.frames
    failed e initial h = tt
    failed e (in_progress f) h = tt
    failed e (list_in_progress f fs) (h, hs) = hs

whole_slots : (fs : List Slot) → All IsPresent fs → map seen_slot fs ≡ map some (collect fs)
unfolding IsPresent
whole_slots [] h = refl
whole_slots (none ∷ fs) (h, hs) = absurd h
whole_slots (some (k, v) ∷ fs) (h, hs) = ap (λ t. some (k.text, v) ∷ t) (whole_slots fs hs)

-- What is seen of a whole frame is what it shows.
abbrev seen_section : Section → SeenFrame
seen_section s = (map some s.pairs, s.binary)

whole_frames :
    (fs : List Frame) → All IsWhole fs → map seen_frame fs ≡ map seen_section (map shown_frame fs)
whole_frames [] h = refl
whole_frames (f ∷ fs) (h, hs) = rw (whole_slots f.fields h, whole_frames fs hs) refl

unfoldable pub collect_seen : List (Option (Str × Str)) → List (Str × Str)
collect_seen [] = []
collect_seen (none ∷ xs) = collect_seen xs
collect_seen (some x ∷ xs) = x ∷ collect_seen xs

pub collect-seen_slot : (fs : List Slot) → collect_seen (map seen_slot fs) ≡ collect fs
unfolding collect_seen
collect-seen_slot [] = refl
collect-seen_slot (none ∷ fs) = collect-seen_slot fs
collect-seen_slot (some (k, v) ∷ fs) = ap (λ t. (k.text, v) ∷ t) (collect-seen_slot fs)

shown_frames :
    (fs : List Frame)
    → map
        (λ (fields, binary). record { pairs = collect_seen fields; binary = binary })
        (map seen_frame fs)
      ≡ map shown_frame fs
shown_frames [] = refl
shown_frames (f ∷ fs) = rw (collect-seen_slot f.fields, shown_frames fs) refl

-- Two responses without removed fields.
whole-same_iff :
    (r s : Response)
    → All IsWhole r.frames
    → All IsWhole s.frames
    → (same r s ≡ true) ↔ (shown_response r ≡ shown_response s)
whole-same_iff r s hr hs = (
  λ e.
      let seen = (response-Compares.eq_iff r s).0 e in
      let frames : map shown_frame r.frames ≡ map shown_frame s.frames =
        sym (shown_frames r.frames)
        ∙ ap
            (λ t.
              map (λ (fields, binary). record { pairs = collect_seen fields; binary = binary }) t.0)
            seen
        ∙ shown_frames s.frames in
      let errors : r.error ≡ s.error = ap (λ t. t.1) seen in rw (frames, errors) refl,
  λ e.
      let frames : map seen_frame r.frames ≡ map seen_frame s.frames =
        whole_frames r.frames hr
        ∙ ap (λ t. map seen_section t.sections) e
        ∙ sym (whole_frames s.frames hs) in
      let errors : r.error ≡ s.error = ap (λ t. t.error) e in
      (response-Compares.eq_iff r s).1 (rw (frames, errors) refl),
)

returned-IsWhole :
    {c : Crates} (b : ResponseBuilder c) (src : Bytes) (r : Response)
    → AllWhole b.state
    → (parse_buffer c b src).0 ≡ ok (some r)
    → All IsWhole r.frames
unfolding Kept
returned-IsWhole {c} b src r h e =
    subst (λ t. Kept AllWhole (λ r s. All IsWhole r.frames) t (parse_buffer c b src).1.state) e
      (parse_buffer-Kept AllWhole-Keeps c b src h)

-- The derived comparison of two responses that calls of `ResponseBuilder::parse` return is exactly that of
-- what they show: the sections with their keys' texts, values and binary data, and the error. The
-- calls may be ones of different builders on different crates and buffers; neither state has
-- a removed field, as none has that the parser made.
pub returned-same_iff :
    {c d : Crates} (b : ResponseBuilder c) (b' : ResponseBuilder d) (src src' : Bytes)
    (r s : Response)
    → AllWhole b.state
    → AllWhole b'.state
    → (parse_buffer c b src).0 ≡ ok (some r)
    → (parse_buffer d b' src').0 ≡ ok (some s)
    → (same r s ≡ true) ↔ (shown_response r ≡ shown_response s)
returned-same_iff b b' src src' r s h h' e e' =
    whole-same_iff r s (returned-IsWhole b src r h e) (returned-IsWhole b' src' s h' e')
