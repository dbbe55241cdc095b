-- ===== src/Frame/Multimap.antt =====
-- A frame under any calls of `get` (src/response/frame.rs), against a map from keys to queues of values.
use mpd_protocol.Prelude.{
  ◌≡◌, ◌≢◌, refl, sym, ap, ◌∙◌, Option, List, [], ◌∷◌, if◌then◌else◌, equal, equal_iff, equal_refl,
  Bool-cases, inl, inr,
}
use mpd_protocol.Std.Utf8.{Str}
use mpd_protocol.Frame.{Frame, get}
use mpd_protocol.Frame.Access.{values, first, rest, find-first, get_lem}

-- The values of each key that are still there.
abbrev pub Multimap : Type 0
Multimap = Str → List Str

abbrev pub pop : Str → Multimap → Option Str × Multimap
pop key m = (first (m key), λ j. if equal key j then rest (m key) else m j)

unfoldable pub pops : List Str → Multimap → List (Option Str) × Multimap
pops [] m = ([], m)
pops (key ∷ keys) m =
    let (value, m') = pop key m in let (values_, m'') = pops keys m' in (value ∷ values_, m'')

-- The calls of `get`, one after the other.
unfoldable pub gets : List Str → Frame → List (Option Str) × Frame
unfolding get
gets [] frame = ([], frame)
gets (key ∷ keys) frame =
    let (value, frame') = get key frame in
    let (values_, frame'') = gets keys frame' in (value ∷ values_, frame'')

get-pop :
    (key j : Str) (frame : Frame) (m : Multimap)
    → ((i : Str) → values i frame ≡ m i)
    → values j (get key frame).1 ≡ (pop key m).1 j
get-pop key j frame m same =
    let (_, taken, others, _) = get_lem key frame in
    elim (Bool-cases (equal key j)) [
      | inl here ↦
          let e : key ≡ j = (equal_iff key j).0 here in
          rw here (ap (λ i. values i (get key frame).1) (sym e) ∙ taken ∙ ap rest (same key))
      | inr other ↦
          let ne : key ≢ j = (λ e. cc (ap (equal key) e, equal_refl key, other)) in
          rw other (others j ne ∙ same j)
    ]

gets-from :
    (keys : List Str) (frame : Frame) (m : Multimap)
    → ((i : Str) → values i frame ≡ m i)
    → ((gets keys frame).0 ≡ (pops keys m).0)
      × ((j : Str) → values j (gets keys frame).1 ≡ (pops keys m).1 j)
      × ((gets keys frame).1.binary ≡ frame.binary)
unfolding gets pops
gets-from [] frame m same = (refl, same, refl)
gets-from (key ∷ keys) frame m same =
    let (found, _, _, kept) = get_lem key frame in
    let (later, left, binary) =
      gets-from keys (get key frame).1 (pop key m).1 (λ j. get-pop key j frame m same) in
    let value : (get key frame).0 ≡ first (m key) =
      found ∙ find-first key frame ∙ ap first (same key) in
    (rw (value, later) refl, left, binary ∙ kept)

-- Any calls of `get` with any keys, one after the other, refine a map from keys to queues: each call
-- takes the oldest value of its key that is still there, and returns nothing when there is none; the values
-- that the calls leave to each key are the ones that the queues have left, and the binary section stays.
pub gets-pops :
    (keys : List Str) (frame : Frame)
    → ((gets keys frame).0 ≡ (pops keys (λ i. values i frame)).0)
      × ((j : Str) → values j (gets keys frame).1 ≡ (pops keys (λ i. values i frame)).1 j)
      × ((gets keys frame).1.binary ≡ frame.binary)
gets-pops keys frame = gets-from keys frame (λ i. values i frame) (λ i. refl)
