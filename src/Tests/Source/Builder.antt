-- ===== src/Tests/Source/Builder.antt =====
-- The unit tests of `ResponseBuilder` in src/response.rs.
use Prim.Native.String.{String}
use mpd_protocol.Prelude.{
  ℕ, ◌≡◌, refl, Bool, true, false, ◌&&◌, ◌==◌, equal, Option, none, some, List, [], ◌∷◌, ◌++◌,
  Bytes, codes,
}
use mpd_protocol.Std.Utf8.{from_utf8}
use mpd_protocol.Std.Number.{parse_u64}
use mpd_protocol.Nom.Reference
use mpd_protocol.Crates.{reference}
use mpd_protocol.Interner.{intern_key}
use mpd_protocol.Parser.{Error, parse}
use mpd_protocol.Frame.{Slot, Frame, into_iter_next}
use mpd_protocol.Frame as Frames
use mpd_protocol.Response.{Response}
use mpd_protocol.Builder.{
  ResponseState, initial, in_progress, list_in_progress, on_field, on_binary, finish_frame,
  completed_frames, finish, finish_error, ParseResult, ResponseBuilder, new, parse_buffer,
}
use mpd_protocol.Builder as Builder
use mpd_protocol.Equality.{same, response_eq, state_eq, frame_eq, error_eq}
use mpd_protocol.Tests.Source.{is_text}

-- The helper `frame`: the fields are pushed one after the other.
abbrev push_fields : List (String × String) → List Slot → List Slot
push_fields [] fields = fields
push_fields ((k, v) ∷ kvs) fields =
    push_fields kvs (Frames.push_field (record { addr = 0; text = codes k }) (codes v) fields)

abbrev frame : List (String × String) → Option Bytes → Frame
frame kvs binary = record { fields = push_fields kvs []; binary = binary }

-- `Ok(None)`
abbrev waits : ParseResult → Bool
waits (Builder.ok none) = true
waits _ = false

-- `Ok(Some(…))`
abbrev returns : ParseResult → Response → Bool
returns (Builder.ok (some r)) r' = same r r'
returns _ r' = false

abbrev run : ResponseBuilder reference → Bytes → ParseResult × ResponseBuilder reference × Bytes
run builder io = parse_buffer reference builder io

abbrev foo_bar : Frame
foo_bar = frame (("foo", "bar") ∷ []) none

abbrev simple_response : Bool
simple_response =
    let builder = new reference in
    let (first, builder1, io1) = run builder (codes "foo: bar\nOK") in
    let (second, builder2, io2) = run builder1 io1 in
    let (third, builder3, io3) = run builder2 (io2 ++ codes "\n") in
    same builder.state initial
    && waits first
    && same builder1.state (in_progress foo_bar)
    && is_text io1 "OK"
    && waits second
    && same builder2.state (in_progress foo_bar)
    && is_text io2 "OK"
    && returns third (record { frames = foo_bar ∷ []; error = none })
    && same builder3.state initial
    && is_text io3 ""

simple_response_passes : simple_response ≡ true
unfolding parse_buffer on_field finish parse Reference.tag Reference.take_while1 from_utf8
    Reference.char intern_key Reference.take_while equal
simple_response_passes = refl

abbrev response_with_binary : Bool
response_with_binary =
    let (first, builder1, io1) = run (new reference) (codes "foo: bar\nbinary: 6\nOK\n") in
    let (second, builder2, io2) = run builder1 (io1 ++ codes "OK\n\n") in
    let (third, builder3, io3) = run builder2 (io2 ++ codes "OK\n") in
    let both = frame (("foo", "bar") ∷ []) (some (codes "OK\nOK\n")) in
    waits first
    && same builder1.state (in_progress foo_bar)
    && is_text io1 "binary: 6\nOK\n"
    && waits second
    && same builder2.state (in_progress both)
    && is_text io2 ""
    && returns third (record { frames = both ∷ []; error = none })
    && same builder3.state initial

response_with_binary_passes : response_with_binary ≡ true
unfolding parse_buffer on_field on_binary finish parse Reference.tag Reference.take_while1 from_utf8
    Reference.char intern_key Reference.take_while Reference.take parse_u64 equal
response_with_binary_passes = refl

abbrev empty_response : Bool
empty_response =
    let (first, builder1, io1) = run (new reference) (codes "OK") in
    let (second, _, _) = run builder1 (io1 ++ codes "\n") in
    waits first
    && same builder1.state initial
    && returns second (record { frames = Frames.empty ∷ []; error = none })

empty_response_passes : empty_response ≡ true
unfolding parse_buffer finish parse Reference.tag Reference.take_while1 from_utf8 Reference.char
    intern_key Reference.take_while equal
empty_response_passes = refl

abbrev unknown_command : ℕ → Error
unknown_command index = record {
  code = 5;
  command_index = index;
  current_command = none;
  message = codes "unknown command \"foo\"";
}

abbrev error : Bool
error =
    let (first, builder1, io1) =
      run (new reference) (codes "ACK [5@0] {} unknown command \"foo\"") in
    let (second, builder2, _) = run builder1 (io1 ++ codes "\n") in
    waits first
    && same builder1.state initial
    && returns second (record { frames = []; error = some (unknown_command 0) })
    && same builder2.state initial

error_passes : error ≡ true
unfolding parse_buffer finish_error parse Reference.tag Reference.take_while1 from_utf8
    Reference.char intern_key Reference.take_while parse_u64 equal
error_passes = refl

abbrev multiple_messages : Bool
multiple_messages =
    let (first, builder1, io1) = run (new reference) (codes "foo: bar\nOK\nhello: world\nOK\n") in
    let (second, _, io2) = run builder1 io1 in
    returns first (record { frames = foo_bar ∷ []; error = none })
    && is_text io1 "hello: world\nOK\n"
    && returns second (record { frames = frame (("hello", "world") ∷ []) none ∷ []; error = none })
    && is_text io2 ""

multiple_messages_passes : multiple_messages ≡ true
unfolding parse_buffer on_field finish parse Reference.tag Reference.take_while1 from_utf8
    Reference.char intern_key Reference.take_while equal
multiple_messages_passes = refl

abbrev command_list : Bool
command_list =
    let (first, builder1, io1) = run (new reference) (codes "foo: bar\n") in
    let (second, builder2, io2) = run builder1 (io1 ++ codes "list_OK\n") in
    let (third, builder3, io3) = run builder2 (io2 ++ codes "list_OK\n") in
    let (fourth, builder4, _) = run builder3 (io3 ++ codes "OK\n") in
    waits first
    && same builder1.state (in_progress foo_bar)
    && waits second
    && same builder2.state (list_in_progress Frames.empty (foo_bar ∷ []))
    && waits third
    && same builder3.state (list_in_progress Frames.empty (foo_bar ∷ Frames.empty ∷ []))
    && returns fourth (record { frames = foo_bar ∷ Frames.empty ∷ []; error = none })
    && same builder4.state initial

command_list_passes : command_list ≡ true
unfolding parse_buffer on_field finish_frame completed_frames finish parse Reference.tag
    Reference.take_while1 from_utf8 Reference.char intern_key Reference.take_while equal
command_list_passes = refl

abbrev command_list_error : Bool
command_list_error =
    let (first, builder1, io1) = run (new reference) (codes "list_OK\n") in
    let (second, builder2, _) =
      run builder1 (io1 ++ codes "ACK [5@1] {} unknown command \"foo\"\n") in
    waits first
    && same builder1.state (list_in_progress Frames.empty (Frames.empty ∷ []))
    && returns second (record { frames = Frames.empty ∷ []; error = some (unknown_command 1) })
    && same builder2.state initial

command_list_error_passes : command_list_error ≡ true
unfolding parse_buffer finish_frame completed_frames finish_error parse Reference.tag
    Reference.take_while1 from_utf8 Reference.char intern_key Reference.take_while parse_u64 equal
command_list_error_passes = refl

abbrev last_frame : ParseResult → Frame
last_frame (Builder.ok (some r)) = last_of r.frames
  where
    last_of : List Frame → Frame
    last_of [] = Frames.empty
    last_of (f ∷ []) = f
    last_of (f ∷ g ∷ fs) = last_of (g ∷ fs)
last_frame _ = Frames.empty

-- `Arc::ptr_eq`
abbrev ptr_eq : Slot → Slot → Bool
ptr_eq (some (a, v)) (some (b, w)) = a.addr == b.addr
ptr_eq _ _ = false

abbrev key_interning : Bool
key_interning =
    let (result, _, _) = run (new reference) (codes "foo: bar\nfoo: baz\nOK\n") in
    let (a, fields) = into_iter_next (Frames.into_iter (last_frame result)) in
    let (b, _) = into_iter_next fields in ptr_eq a b

key_interning_passes : key_interning ≡ true
unfolding parse_buffer on_field finish parse Reference.tag Reference.take_while1 from_utf8
    Reference.char intern_key Reference.take_while into_iter_next equal
key_interning_passes = refl
