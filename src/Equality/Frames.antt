-- ===== src/Equality/Frames.antt =====
-- The accessors of src/response/frame.rs on frames that are `==`.
use mpd_protocol.Prelude.{
  ◌≡◌, refl, sym, ap, ◌∙◌, true, Option, none, some, List, [], ◌∷◌, if◌then◌else◌, equal, length,
  map, Bool-cases, inl, inr,
}
use mpd_protocol.Std.Utf8.{Str}
use mpd_protocol.Frame.{Slot, Frame, collect, find, find_map, get, get_slot, fields_len, is_empty}
use mpd_protocol.Equality.{same, frame_eq}
use mpd_protocol.Equality.Laws.{seen_slot, frame-Compares}
use mpd_protocol.Equality.Parsed.{collect_seen, collect-seen_slot}

-- `get_slot` on what is seen of the fields.
seen_get : Str → List (Option (Str × Str)) → Option Str × List (Option (Str × Str))
seen_get key [] = (none, [])
seen_get key (none ∷ fs) = let (found, fs') = seen_get key fs in (found, none ∷ fs')
seen_get key (some (k, v) ∷ fs) =
    let rest : Option Str × List (Option (Str × Str)) =
      (let (found, fs') = seen_get key fs in (found, some (k, v) ∷ fs')) in
    if equal k key then (some v, none ∷ fs) else rest

get_slot-seen_get :
    (key : Str) (fs : List Slot)
    → ((get_slot key fs).0 ≡ (seen_get key (map seen_slot fs)).0)
      × (map seen_slot (get_slot key fs).1 ≡ (seen_get key (map seen_slot fs)).1)
unfolding get_slot seen_get
get_slot-seen_get key [] = (refl, refl)
get_slot-seen_get key (none ∷ fs) =
    let (found, left) = get_slot-seen_get key fs in (found, ap (λ t. none ∷ t) left)
get_slot-seen_get key (some (k, v) ∷ fs) = elim (Bool-cases (equal k.text key)) [
  | inl here ↦ rw here (refl, refl)
  | inr other ↦
      let (found, left) = get_slot-seen_get key fs in
      rw other (found, ap (λ t. some (k.text, v) ∷ t) left)
]

collect-same :
    (f g : Frame)
    → map seen_slot f.fields ≡ map seen_slot g.fields
    → collect f.fields ≡ collect g.fields
collect-same f g e =
    sym (collect-seen_slot f.fields) ∙ ap collect_seen e ∙ collect-seen_slot g.fields

-- What two frames have in common that no accessor tells apart.
pub record Alike (f g : Frame) : Type 0 where
  pub same_find : (key : Str) → find key f ≡ find key g
  pub same_get : (key : Str) → (get key f).0 ≡ (get key g).0
  pub same_left : (key : Str) → same (get key f).1 (get key g).1 ≡ true
  pub same_fields : collect f.fields ≡ collect g.fields
  pub same_len : fields_len f ≡ fields_len g
  pub same_binary : f.binary ≡ g.binary
  pub same_empty : is_empty f ≡ is_empty g

-- Frames that are `==` cannot be told apart: `find` and `get` return the same for every key, and the frames
-- that `get` leaves are `==` again; so do the iterator's fields, their number, the binary section
-- and `is_empty` agree.
pub same-Alike : (f g : Frame) → same f g ≡ true → Alike f g
unfolding find get is_empty
same-Alike f g h =
    let seen = (frame-Compares.eq_iff f g).0 h in
    let slots : map seen_slot f.fields ≡ map seen_slot g.fields = ap (λ t. t.0) seen in
    let binaries : f.binary ≡ g.binary = ap (λ t. t.1) seen in
    let fields = collect-same f g slots in
    record {
      same_find = λ key. ap (find_map (λ (k, v). if equal k key then some v else none)) fields;
      same_get = λ key.
          (get_slot-seen_get key f.fields).0
          ∙ ap (λ t. (seen_get key t).0) slots
          ∙ sym (get_slot-seen_get key g.fields).0;
      same_left = λ key.
          let left : map seen_slot (get_slot key f.fields).1
              ≡ map seen_slot (get_slot key g.fields).1 =
            (get_slot-seen_get key f.fields).1
            ∙ ap (λ t. (seen_get key t).1) slots
            ∙ sym (get_slot-seen_get key g.fields).1 in
          (frame-Compares.eq_iff (get key f).1 (get key g).1).1 (rw (left, binaries) refl);
      same_fields = fields;
      same_len = ap (λ t. length t) fields;
      same_binary = binaries;
      same_empty = rw (fields, binaries) refl;
    }
