-- ===== src/Frame/Owned.antt =====
-- The iterator that owns a frame's fields, against the one that borrows them (src/response/frame.rs).
use mpd_protocol.Prelude.{◌≡◌, refl, ap, Option, none, some, List, [], ◌∷◌}
use mathlib.Core.List.{reverse}
use mpd_protocol.Std.Utf8.{Str}
use mpd_protocol.Interner.{Arc}
use mpd_protocol.Frame.{
  Slot, next, next_back, next_reversed, next_slot, IntoIter, into_iter_next, into_iter_next_back,
}

-- An owned field, as the borrowing iterator shows it.
abbrev pub shown : Option (Arc × Str) → Option (Str × Str)
shown none = none
shown (some (k, v)) = some (k.text, v)

next_slot-next :
    (l : List Slot) → (shown (next_slot l).0 ≡ (next l).0) × ((next_slot l).1 ≡ (next l).1)
unfolding next_slot next
next_slot-next [] = (refl, refl)
next_slot-next (none ∷ l) = next_slot-next l
next_slot-next (some (k, v) ∷ l) = (refl, refl)

next_slot-next_reversed :
    (l : List Slot)
    → (shown (next_slot l).0 ≡ (next_reversed l).0) × ((next_slot l).1 ≡ (next_reversed l).1)
unfolding next_slot next_reversed
next_slot-next_reversed [] = (refl, refl)
next_slot-next_reversed (none ∷ l) = next_slot-next_reversed l
next_slot-next_reversed (some (k, v) ∷ l) = (refl, refl)

-- From either end, the owning iterator yields the field that the borrowing iterator yields over the
-- same slots, and leaves the same slots; the binary section stays with it.
pub into_iter_lem :
    (it : IntoIter)
    → ((shown (into_iter_next it).0 ≡ (next it.iter).0)
        × ((into_iter_next it).1 ≡ record it { iter = (next it.iter).1 }))
      × ((shown (into_iter_next_back it).0 ≡ (next_back it.iter).0)
          × ((into_iter_next_back it).1 ≡ record it { iter = (next_back it.iter).1 }))
unfolding into_iter_next into_iter_next_back next_back
into_iter_lem it =
    let (item, left) = next_slot-next it.iter in
    let (item', left') = next_slot-next_reversed (reverse it.iter) in
    (
      (item, ap (λ l. record it { iter = l }) left),
      (item', ap (λ l. record it { iter = reverse l }) left'),
    )
