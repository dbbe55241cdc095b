-- ===== src/Frame.antt =====
-- src/response/frame.rs: a frame, its accessors and its iterators. A removed field leaves an empty
-- slot behind, so the fields are a list of options, as the `Vec<Option<(Arc<str>, String)>>` is.
pub mod Iteration
pub mod Access
pub mod Multimap
pub mod Owned
use mpd_protocol.Prelude.{
  ℕ, Bool, true, false, not, ◌&&◌, Option, none, some, List, [], ◌∷◌, ◌++◌, ◌==◌, if◌then◌else◌,
  length, equal, Bytes,
}
use mathlib.Core.List.{reverse}
use mpd_protocol.Std.Utf8.{Str}
use mpd_protocol.Interner.{Arc}

abbrev pub Slot : Type 0
Slot = Option (Arc × Str)

-- `FieldsContainer`
abbrev pub FieldsContainer : Type 0
FieldsContainer = List Slot

pub record Frame : Type 0 where
  pub fields : FieldsContainer
  pub binary : Option Bytes

-- `Frame::empty`
abbrev pub empty : Frame
empty = record { fields = []; binary = none }

-- `FieldsContainer::push_field`
abbrev pub push_field : Arc → Str → FieldsContainer → FieldsContainer
push_field key value fields = fields ++ some (key, value) ∷ []

-- `Fields`: what the slice iterator has yet to yield.
abbrev pub Fields : Type 0
Fields = List Slot

-- `Frame::fields`, and `IntoIterator for &Frame`
abbrev pub fields_iter : Frame → Fields
fields_iter frame = frame.fields

-- `Fields::next`: the item, and the iterator after it.
unfoldable pub next : Fields → Option (Str × Str) × Fields
next [] = (none, [])
next (none ∷ it) = next it
next (some (k, v) ∷ it) = (some (k.text, v), it)

-- The slots from the last to the first, as `next_back` takes them.
next_reversed : Fields → Option (Str × Str) × Fields
next_reversed [] = (none, [])
next_reversed (none ∷ it) = next_reversed it
next_reversed (some (k, v) ∷ it) = (some (k.text, v), it)

abbrev unreversed {ℓ} : {A : Type ℓ} → A × Fields → A × Fields
unreversed (item, it) = (item, reverse it)

-- `Fields::next_back`
pub next_back : Fields → Option (Str × Str) × Fields
unfolding next_reversed
next_back it = unreversed (next_reversed (reverse it))

-- `IntoIter`, the iterator that owns the frame's fields and its binary section.
pub record IntoIter : Type 0 where
  pub iter : List Slot
  pub binary : Option Bytes

-- `IntoIterator for Frame`
abbrev pub into_iter : Frame → IntoIter
into_iter frame = record { iter = frame.fields; binary = frame.binary }

next_slot : List Slot → Option (Arc × Str) × List Slot
next_slot [] = (none, [])
next_slot (none ∷ it) = next_slot it
next_slot (some value ∷ it) = (some value, it)

-- `IntoIter::next`
unfoldable pub into_iter_next : IntoIter → Option (Arc × Str) × IntoIter
unfolding next_slot
into_iter_next it = let (item, iter) = next_slot it.iter in (item, record it { iter = iter })

-- `IntoIter::next_back`
pub into_iter_next_back : IntoIter → Option (Arc × Str) × IntoIter
unfolding next_slot
into_iter_next_back it =
    let (item, iter) = next_slot (reverse it.iter) in (item, record it { iter = reverse iter })

-- `IntoIter::get_binary`
abbrev pub into_iter_get_binary : IntoIter → Option Bytes × IntoIter
into_iter_get_binary it = (it.binary, record it { binary = none })

-- The items that calling `next` until it yields nothing gives.
abbrev pub collect : Fields → List (Str × Str)
collect [] = []
collect (none ∷ it) = collect it
collect (some (k, v) ∷ it) = (k.text, v) ∷ collect it

-- `Iterator::count`
abbrev pub fields_len : Frame → ℕ
fields_len frame = length (collect (fields_iter frame))

abbrev pub is_some {ℓ} : {A : Type ℓ} → Option A → Bool
is_some none = false
is_some (some a) = true

abbrev pub has_binary : Frame → Bool
has_binary frame = is_some frame.binary

unfoldable pub is_empty : Frame → Bool
is_empty frame = fields_len frame == 0 && not (has_binary frame)

abbrev pub or_some : Option Str → Option Str → Option Str
or_some none r = r
or_some (some v) r = some v

-- `Iterator::find_map` over the items
abbrev pub find_map : (Str × Str → Option Str) → List (Str × Str) → Option Str
find_map f [] = none
find_map f (x ∷ xs) = or_some (f x) (find_map f xs)

-- `Frame::find`
unfoldable pub find : Str → Frame → Option Str
find key frame =
    find_map (λ (k, v). if equal k key then some v else none) (collect (fields_iter frame))

-- The loop of `Frame::get`: a slot whose key matches is taken, and the loop ends there.
unfoldable pub get_slot : Str → List Slot → Option Str × List Slot
get_slot key [] = (none, [])
get_slot key (none ∷ fs) = let (found, fs') = get_slot key fs in (found, none ∷ fs')
get_slot key (some (k, v) ∷ fs) =
    let rest : Option Str × List Slot =
      (let (found, fs') = get_slot key fs in (found, some (k, v) ∷ fs')) in
    if equal k.text key then (some v, none ∷ fs) else rest

-- `Frame::get`
unfoldable pub get : Str → Frame → Option Str × Frame
unfolding get_slot
get key frame =
    let (found, fields) = get_slot key frame.fields in (found, record frame { fields = fields })

-- `Frame::binary`
abbrev pub binary : Frame → Option Bytes
binary frame = frame.binary

-- `Frame::get_binary`
abbrev pub get_binary : Frame → Option Bytes × Frame
get_binary frame = (frame.binary, record frame { binary = none })
