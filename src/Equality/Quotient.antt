-- ===== src/Equality/Quotient.antt =====
-- Responses up to their derived comparison (src/response.rs): what is left is what they show, removed
-- fields included, and nothing of the addresses of the keys.
use mpd_protocol.Prelude.{◌≡◌, refl, ap, true, Option, none, some, List, [], ◌∷◌, map}
use mathlib.Core.Quot
use mathlib.Core.Quot.{Quot, Quot-set}
use mathlib.Core.Equiv.{IsEquiv, iso_to_equiv}
use mpd_protocol.Std.Utf8.{Str}
use mpd_protocol.Frame.{Slot, Frame}
use mpd_protocol.Response.{Response}
use mpd_protocol.Equality.{same, response_eq}
use mpd_protocol.Equality.Laws.{
  SeenFrame, SeenResponse, seen_slot, seen_frame, seen_response, response-Compares,
}

-- The two responses are `==`.
abbrev pub Same : Response → Response → Type 0
Same r s = same r s ≡ true

abbrev pub Responses : Type 0
Responses = Quot Same

SeenResponse-set : IsSet SeenResponse
SeenResponse-set = hlevel

-- What is seen of a response up to comparison.
pub seen : Responses → SeenResponse
seen = Quot.lift SeenResponse-set seen_response (λ r s h. (response-Compares.eq_iff r s).0 h)

-- A response that shows it; every key stands at the address 0.
kept_slot : Option (Str × Str) → Slot
kept_slot none = none
kept_slot (some (k, v)) = some (record { addr = 0; text = k }, v)

kept_frame : SeenFrame → Frame
unfolding kept_slot
kept_frame (fields, binary) = record { fields = map kept_slot fields; binary = binary }

kept : SeenResponse → Response
unfolding kept_frame
kept (frames, error) = record { frames = map kept_frame frames; error = error }

map_inverse :
    {A B : Type 0} (f : A → B) (g : B → A)
    → ((b : B) → f (g b) ≡ b)
    → (bs : List B) → map f (map g bs) ≡ bs
map_inverse f g h [] = refl
map_inverse f g h (b ∷ bs) = rw (h b, map_inverse f g h bs) refl

seen_slot-kept_slot : (s : Option (Str × Str)) → seen_slot (kept_slot s) ≡ s
unfolding kept_slot
seen_slot-kept_slot none = refl
seen_slot-kept_slot (some (k, v)) = refl

seen_frame-kept_frame : (f : SeenFrame) → seen_frame (kept_frame f) ≡ f
unfolding kept_frame
seen_frame-kept_frame (fields, binary) =
    ap (λ fs. (fs, binary)) (map_inverse seen_slot kept_slot seen_slot-kept_slot fields)

seen_response-kept : (r : SeenResponse) → seen_response (kept r) ≡ r
unfolding kept
seen_response-kept (frames, error) =
    ap (λ fs. (fs, error)) (map_inverse seen_frame kept_frame seen_frame-kept_frame frames)

kept-seen : (q : Responses) → ◌≡◌ {A = Responses} (Quot.mk (kept (seen q))) q
unfolding seen
kept-seen =
    Quot.ind (λ q. Quot-set _ _)
      λ r. Quot.sound (
        (response-Compares.eq_iff (kept (seen_response r)) r).1
          (seen_response-kept (seen_response r)))

-- Responses up to their derived comparison are exactly what they show: the frames with the keys' texts,
-- the values, the places of removed fields and the binary sections, and the error. Nothing else
-- tells two of them apart, and all of it does.
pub seen-IsEquiv : IsEquiv seen
unfolding seen
seen-IsEquiv =
    (iso_to_equiv record {
      fun = seen;
      inv = λ v. Quot.mk (kept v);
      rinv = seen_response-kept;
      linv = kept-seen;
    }).1
