-- ===== src/Tests/Source/Frame.antt =====
-- The unit tests of src/response/frame.rs.
use Prim.Native.String.{String}
use mpd_protocol.Prelude.{
  ◌≡◌, refl, Bool, true, not, ◌&&◌, ◌==◌, equal, Option, none, some, [], ◌∷◌, codes,
}
use mpd_protocol.Std.Utf8.{Str}
use mpd_protocol.Interner.{Arc}
use mpd_protocol.Equality.{option_eq, text_eq, pair_eq, arc_eq}
use mpd_protocol.Frame.{
  Slot, Frame, fields_len, has_binary, is_empty, get_binary, find, get, fields_iter, next,
  into_iter, into_iter_next,
}
use mpd_protocol.Frame as Frames

-- `Arc::from`
abbrev pub arc : String → Arc
arc k = record { addr = 0; text = codes k }

abbrev pub entry : String → String → Slot
entry k v = some (arc k, codes v)

abbrev is_value : Option Str → Option Str → Bool
is_value a b = (option_eq text_eq).eq a b

abbrev is_item : Option (Str × Str) → Option (Str × Str) → Bool
is_item a b = (option_eq (pair_eq text_eq text_eq)).eq a b

abbrev is_owned : Option (Arc × Str) → Slot → Bool
is_owned a b = (option_eq (pair_eq arc_eq text_eq)).eq a b

abbrev length : Bool
length =
    let frame : Frame = record {
      fields = entry "hello" "world" ∷ entry "foo" "bar" ∷ [];
      binary = some (codes "hello world");
    } in
    fields_len Frames.empty == 0 && fields_len frame == 2

length_passes : length ≡ true
length_passes = refl

abbrev binary : Bool
binary =
    let frame : Frame = record { fields = []; binary = some (codes "hello world") } in
    let (first, frame') = get_binary frame in
    let (second, frame'') = get_binary frame' in
    has_binary frame
    && not (is_empty frame)
    && is_value first (some (codes "hello world"))
    && is_value second none
    && not (has_binary frame'')

binary_passes : binary ≡ true
unfolding is_empty equal
binary_passes = refl

abbrev two_hellos : Frame
two_hellos = record {
  fields = entry "hello" "first value" ∷ entry "foo" "bar" ∷ entry "hello" "second value" ∷ [];
  binary = none;
}

abbrev accessors : Bool
accessors =
    let (first, frame') = get (codes "hello") two_hellos in
    let (second, frame'') = get (codes "hello") frame' in
    let (third, frame''') = get (codes "hello") frame'' in
    let (fourth, _) = get (codes "Foo") frame''' in
    is_value (find (codes "hello") two_hellos) (some (codes "first value"))
    && is_value (find (codes "404") two_hellos) none
    && is_value (find (codes "HELLO") two_hellos) none
    && is_value first (some (codes "first value"))
    && is_value second (some (codes "second value"))
    && is_value third none
    && is_value fourth none

accessors_passes : accessors ≡ true
unfolding find get equal
accessors_passes = refl

abbrev iter : Bool
iter =
    let (a, it) = next (fields_iter two_hellos) in
    let (b, it') = next it in
    let (c, it'') = next it' in
    let (d, it''') = next it'' in
    let (e, _) = next it''' in
    is_item a (some (codes "hello", codes "first value"))
    && is_item b (some (codes "foo", codes "bar"))
    && is_item c (some (codes "hello", codes "second value"))
    && is_item d none
    && is_item e none

iter_passes : iter ≡ true
unfolding next equal
iter_passes = refl

abbrev owned_iter : Bool
owned_iter =
    let (a, it) = into_iter_next (into_iter two_hellos) in
    let (b, it') = into_iter_next it in
    let (c, it'') = into_iter_next it' in
    let (d, it''') = into_iter_next it'' in
    let (e, _) = into_iter_next it''' in
    is_owned a (entry "hello" "first value")
    && is_owned b (entry "foo" "bar")
    && is_owned c (entry "hello" "second value")
    && is_owned d none
    && is_owned e none

owned_iter_passes : owned_iter ≡ true
unfolding into_iter_next equal
owned_iter_passes = refl
