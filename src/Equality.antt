-- ===== src/Equality.antt =====
-- The comparisons that src/command.rs, src/parser.rs, src/response.rs and src/response/frame.rs derive (`PartialEq`): the
-- fields are compared one after the other. `Arc<str>` compares the texts, not the addresses.
pub mod Laws
pub mod Quotient
pub mod Parsed
pub mod Frames
use mpd_protocol.Prelude.{
  ℕ, Bool, true, false, ◌&&◌, Option, none, some, List, [], ◌∷◌, ◌==◌, equal, Bytes,
}
use mpd_protocol.Std.Utf8.{Str}
use mpd_protocol.Interner.{Arc}
use mpd_protocol.Parser.{
  Error, ParsedComponent, end_of_frame, end_of_response, error_response, field, binary_field,
}
use mpd_protocol.Frame.{Slot, Frame}
use mpd_protocol.Response.{Response}
use mpd_protocol.Builder.{ResponseState, initial, in_progress, list_in_progress}
use mpd_protocol.Command.{
  Command, CommandError, empty, invalid_character, unncessary_whitespace, command_list,
}
use mpd_protocol.Command.Render.{CommandList}

pub record PartialEq (A : Type 0) : Type 0 where
  pub eq : A → A → Bool

-- `==` of the type.
abbrev pub same : {A : Type 0} ⦃e : PartialEq A⦄ → A → A → Bool
same ⦃e⦄ = e.eq

instance abbrev pub nat_eq : PartialEq ℕ
nat_eq = record { eq = λ a b. a == b }

-- `str`, `String`, `Cow<str>` and `BytesMut`; explicit, since a list of bytes is a list too.
abbrev pub text_eq : PartialEq Str
text_eq = record { eq = equal }

instance abbrev pub arc_eq : PartialEq Arc
arc_eq = record { eq = λ a b. equal a.text b.text }

abbrev eq_options : {A : Type 0} → (A → A → Bool) → Option A → Option A → Bool
eq_options eq none none = true
eq_options eq (some a) (some b) = eq a b
eq_options eq _ _ = false

abbrev pub option_eq : {A : Type 0} → PartialEq A → PartialEq (Option A)
option_eq e = record { eq = eq_options e.eq }

abbrev eq_lists : {A : Type 0} → (A → A → Bool) → List A → List A → Bool
eq_lists eq [] [] = true
eq_lists eq (a ∷ as_) (b ∷ bs) = eq a b && eq_lists eq as_ bs
eq_lists eq _ _ = false

abbrev pub list_eq : {A : Type 0} → PartialEq A → PartialEq (List A)
list_eq e = record { eq = eq_lists e.eq }

abbrev pub pair_eq : {A B : Type 0} → PartialEq A → PartialEq B → PartialEq (A × B)
pair_eq e f = record { eq = λ (a, b) (c, d). e.eq a c && f.eq b d }

-- `Option<(Arc<str>, String)>`
abbrev pub slot_eq : PartialEq Slot
slot_eq = option_eq (pair_eq arc_eq text_eq)

-- `Frame`, and `FieldsContainer`
instance abbrev pub frame_eq : PartialEq Frame
frame_eq = record {
  eq = λ f g. (list_eq slot_eq).eq f.fields g.fields && (option_eq text_eq).eq f.binary g.binary;
}

-- `Error`
instance abbrev pub error_eq : PartialEq Error
error_eq = record {
  eq = λ e f.
      e.code == f.code
      && (e.command_index == f.command_index
          && ((option_eq text_eq).eq e.current_command f.current_command
              && equal e.message f.message));
}

-- `Response`
instance abbrev pub response_eq : PartialEq Response
response_eq = record {
  eq = λ r s. (list_eq frame_eq).eq r.frames s.frames && (option_eq error_eq).eq r.error s.error;
}

abbrev eq_states : ResponseState → ResponseState → Bool
eq_states initial initial = true
eq_states (in_progress f) (in_progress g) = same f g
eq_states (list_in_progress f fs) (list_in_progress g gs) = same f g && (list_eq frame_eq).eq fs gs
eq_states _ _ = false

-- `ResponseState`
instance abbrev pub state_eq : PartialEq ResponseState
state_eq = record { eq = eq_states }

abbrev eq_components : ParsedComponent → ParsedComponent → Bool
eq_components end_of_frame end_of_frame = true
eq_components end_of_response end_of_response = true
eq_components (error_response e) (error_response f) = same e f
eq_components (field k v) (field k' v') = same k k' && equal v v'
eq_components (binary_field n) (binary_field n') = n == n'
eq_components _ _ = false

-- `ParsedComponent`
instance abbrev pub component_eq : PartialEq ParsedComponent
component_eq = record { eq = eq_components }

-- `Command`
instance abbrev pub command_eq : PartialEq Command
command_eq = record { eq = λ c d. equal c.base d.base && (list_eq text_eq).eq c.args d.args }

-- `CommandList`
instance abbrev pub command_list_eq : PartialEq CommandList
command_list_eq = record { eq = λ l m. same l.head m.head && (list_eq command_eq).eq l.tail m.tail }

abbrev eq_command_errors : CommandError → CommandError → Bool
eq_command_errors empty empty = true
eq_command_errors (invalid_character i c) (invalid_character j d) = i == j && c == d
eq_command_errors unncessary_whitespace unncessary_whitespace = true
eq_command_errors command_list command_list = true
eq_command_errors _ _ = false

-- `CommandError`
instance abbrev pub command_error_eq : PartialEq CommandError
command_error_eq = record { eq = eq_command_errors }
