-- ===== src/Frame/Access.antt =====
-- A frame as a multimap: `find` and `get` against the list of values that each key has.
use mpd_protocol.Prelude.{
  ◌≡◌, refl, true, false, Option, none, some, List, [], ◌∷◌, if◌then◌else◌, equal, equal_iff,
  Bool-cases, inl, inr, ◌≢◌, sym, ◌∙◌,
}
use mpd_protocol.Std.Utf8.{Str}
use mpd_protocol.Frame.{Frame, Slot, find, get, get_slot, collect, find_map}

-- The values of a key, in the order of the response.
abbrev pub values_in : Str → List (Str × Str) → List Str
values_in key [] = []
values_in key ((k, v) ∷ xs) = if equal k key then v ∷ values_in key xs else values_in key xs

abbrev pub values : Str → Frame → List Str
values key frame = values_in key (collect frame.fields)

abbrev pub first : List Str → Option Str
first [] = none
first (v ∷ vs) = some v

abbrev pub rest : List Str → List Str
rest [] = []
rest (v ∷ vs) = vs

find_map-values :
    (key : Str) (xs : List (Str × Str))
    → find_map (λ (k, v). if equal k key then some v else none) xs ≡ first (values_in key xs)
find_map-values key [] = refl
find_map-values key ((k, v) ∷ xs) = elim (Bool-cases (equal k key)) [
  | inl same ↦ rw same
  | inr other ↦ rw other (find_map-values key xs)
]

-- `find` returns the first value of the key, and nothing if the key has none.
pub find-first : (key : Str) (frame : Frame) → find key frame ≡ first (values key frame)
unfolding find
find-first key frame = find_map-values key (collect frame.fields)

get_slot-values :
    (key : Str) (fs : List Slot)
    → ((get_slot key fs).0 ≡ first (values_in key (collect fs)))
      × (values_in key (collect (get_slot key fs).1) ≡ rest (values_in key (collect fs)))
unfolding get_slot
get_slot-values key [] = (refl, refl)
get_slot-values key (none ∷ fs) = get_slot-values key fs
get_slot-values key (some (k, v) ∷ fs) = elim (Bool-cases (equal k.text key)) [
  | inl same ↦ rw same (refl, refl)
  | inr other ↦ rw (other, other) (get_slot-values key fs)
]

module _ (key j : Str) (other : key ≢ j) where
  -- A field that is taken has the key, so no other key loses a value.
  unequal_key : (k : Str) → equal k key ≡ true → equal k j ≡ false
  unequal_key k same = elim (Bool-cases (equal k j)) [
    | inl clash ↦ absurd (other (sym ((equal_iff k key).0 same) ∙ (equal_iff k j).0 clash))
    | inr free ↦ free
  ]

  get_slot-values_ne :
      (fs : List Slot) → values_in j (collect (get_slot key fs).1) ≡ values_in j (collect fs)
  unfolding get_slot
  get_slot-values_ne [] = refl
  get_slot-values_ne (none ∷ fs) = get_slot-values_ne fs
  get_slot-values_ne (some (k, v) ∷ fs) = elim (Bool-cases (equal k.text key)) [
    | inl same ↦ rw (same, unequal_key k.text same)
    | inr different ↦ rw (different, get_slot-values_ne fs)
  ]

-- `get` takes the first value of the key out of the frame: it returns what `find` returns, the key
-- has its other values left, no other key loses a value, and the binary section stays.
pub get_lem :
    (key : Str) (frame : Frame)
    → ((get key frame).0 ≡ find key frame)
      × (values key (get key frame).1 ≡ rest (values key frame))
      × ((j : Str) → key ≢ j → values j (get key frame).1 ≡ values j frame)
      × ((get key frame).1.binary ≡ frame.binary)
unfolding get
get_lem key frame =
    let (found, left) = get_slot-values key frame.fields in
    (
      found ∙ sym (find-first key frame),
      left,
      λ j other. get_slot-values_ne key j other frame.fields,
      refl,
    )
