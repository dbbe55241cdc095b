-- ===== src/Tests/Equality.antt =====
-- The comparison of responses at concrete inputs.
use mpd_protocol.Prelude.{◌≡◌, ◌↔◌, refl, true, none, some, [], ◌∷◌, equal, codes}
use mpd_protocol.Std.Utf8.{from_utf8}
use mpd_protocol.Crates.{reference}
use mpd_protocol.Interner.{intern_key, no_keys}
use mpd_protocol.Interner.HashSet.{list_set}
use mpd_protocol.Parser.{parse}
use mpd_protocol.Nom.Reference
use mpd_protocol.Response.{Response}
use mpd_protocol.Builder.{ok, ResponseBuilder, initial, new, parse_buffer, on_field, finish}
use mpd_protocol.Builder.Abstract.{shown_response}
use mpd_protocol.Equality.{same, response_eq, frame_eq}
use mpd_protocol.Frame.{Frame}
use mpd_protocol.Equality.Frames.{Alike, same-Alike}
use mpd_protocol.Equality.Parsed.{returned-same_iff}

-- A builder that has another key already, and so gives the next one another address.
abbrev used : ResponseBuilder reference
used = record { fields = (intern_key list_set (no_keys list_set) (codes "id")).1; state = initial }

abbrev first : Response
first = record {
  frames =
      record {
        fields = some (record { addr = 0; text = codes "foo" }, codes "bar") ∷ [];
        binary = none;
      }
      ∷ [];
  error = none;
}

abbrev second : Response
second = record {
  frames =
      record {
        fields = some (record { addr = 1; text = codes "foo" }, codes "bar") ∷ [];
        binary = none;
      }
      ∷ [];
  error = none;
}

first_returned :
    (parse_buffer reference (new reference) (codes "foo: bar\nOK\n")).0 ≡ ok (some first)
unfolding parse_buffer on_field finish parse Reference.tag Reference.take_while1 from_utf8
    Reference.char intern_key Reference.take_while
first_returned = refl

second_returned : (parse_buffer reference used (codes "foo: bar\nOK\n")).0 ≡ ok (some second)
unfolding parse_buffer on_field finish parse Reference.tag Reference.take_while1 from_utf8
    Reference.char intern_key Reference.take_while equal
second_returned = refl

returned-same_iff_example :
    (same first second ≡ true) ↔ (shown_response first ≡ shown_response second)
returned-same_iff_example =
    returned-same_iff (new reference) used (codes "foo: bar\nOK\n") (codes "foo: bar\nOK\n") first
      second tt tt first_returned second_returned

both_same : same first second ≡ true
unfolding equal
both_same = refl

abbrev first_frame : Frame
first_frame = record {
  fields = none ∷ some (record { addr = 0; text = codes "foo" }, codes "bar") ∷ [];
  binary = some (codes "x");
}

abbrev second_frame : Frame
second_frame = record {
  fields = none ∷ some (record { addr = 7; text = codes "foo" }, codes "bar") ∷ [];
  binary = some (codes "x");
}

frames_same : same first_frame second_frame ≡ true
unfolding equal
frames_same = refl

same-Alike_example : Alike first_frame second_frame
same-Alike_example = same-Alike first_frame second_frame frames_same
