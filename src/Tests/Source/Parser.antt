-- ===== src/Tests/Source/Parser.antt =====
-- The unit tests of src/parser.rs. `incomplete` is not told how much is needed, so the tests of `Needed` ask
-- only that more is.
use Prim.Native.String.{String}
use mpd_protocol.Prelude.{◌≡◌, refl, Bool, true, false, ◌&&◌, equal, none, some, [], codes}
use mpd_protocol.Std.Utf8.{Str, from_utf8}
use mpd_protocol.Std.Number.{parse_u64}
use mpd_protocol.Nom.Laws.{IResult, done, incomplete}
use mpd_protocol.Nom.Reference
use mpd_protocol.Nom.Reference.{nom}
use mpd_protocol.Interner.{InternedKeys, no_keys, intern_key}
use mpd_protocol.Interner.HashSet.{list_set}
use mpd_protocol.Equality.{same, component_eq}
use mpd_protocol.Parser
use mpd_protocol.Parser.{
  ParsedComponent, end_of_frame, end_of_response, error_response, field, binary_field, parse,
}
use mpd_protocol.Tests.Source.{is_text}
use mpd_protocol.Tests.Source.Frame.{arc}

-- `Ok((EMPTY, …))`
abbrev is_done : IResult ParsedComponent × InternedKeys list_set → ParsedComponent → Bool
is_done (done [] c, keys) c' = same c c'
is_done _ c' = false

abbrev is_incomplete {ℓ} : {A : Type ℓ} → IResult A → Bool
is_incomplete incomplete = true
is_incomplete _ = false

abbrev is_version : IResult Str → String → Bool
is_version (done [] version) text = is_text version text
is_version _ text = false

-- The keys of the calls before are kept.
abbrev parsed : String → InternedKeys list_set → IResult ParsedComponent × InternedKeys list_set
parsed text keys = parse nom list_set (codes text) keys

abbrev greeting : Bool
greeting =
    is_version (Parser.greeting nom (codes "OK MPD 0.21.11\n")) "0.21.11"
    && is_incomplete (Parser.greeting nom (codes "OK MPD 0.21.11"))

greeting_passes : greeting ≡ true
unfolding Parser.greeting Reference.tag Reference.take_while Reference.take_while1 Reference.char
    from_utf8 equal
greeting_passes = refl

abbrev end_markers : Bool
end_markers =
    let first = parsed "OK\n" (no_keys list_set) in
    let second = parsed "OK" first.1 in
    let third = parsed "list_OK\n" second.1 in
    let fourth = parsed "list_OK" third.1 in
    is_done first end_of_response
    && is_incomplete second.0
    && is_done third end_of_frame
    && is_incomplete fourth.0

end_markers_passes : end_markers ≡ true
unfolding parse Reference.tag Reference.take_while1 from_utf8 Reference.char intern_key
    Reference.take_while equal
end_markers_passes = refl

abbrev parse_error : Bool
parse_error =
    let first = parsed "ACK [5@0] {} unknown command \"foo\"\n" (no_keys list_set) in
    let second = parsed "ACK [2@0] {random} Boolean (0/1) expected: foo\n" first.1 in
    is_done first (
      error_response (record {
        code = 5;
        command_index = 0;
        current_command = none;
        message = codes "unknown command \"foo\"";
      }))
    && is_done second (
        error_response (record {
          code = 2;
          command_index = 0;
          current_command = some (codes "random");
          message = codes "Boolean (0/1) expected: foo";
        }))

parse_error_passes : parse_error ≡ true
unfolding parse Reference.tag Reference.take_while1 from_utf8 Reference.char intern_key
    Reference.take_while parse_u64 equal
parse_error_passes = refl

abbrev field_test : Bool
field_test =
    let first = parsed "foo: OK\n" (no_keys list_set) in
    let second = parsed "foo_bar: hello world list_OK\n" first.1 in
    let third = parsed "asdf: fooo" second.1 in
    is_done first (field (arc "foo") (codes "OK"))
    && is_done second (field (arc "foo_bar") (codes "hello world list_OK"))
    && is_incomplete third.0

field_test_passes : field_test ≡ true
unfolding parse Reference.tag Reference.take_while1 from_utf8 Reference.char intern_key
    Reference.take_while equal
field_test_passes = refl

abbrev binary_field_test : Bool
binary_field_test =
    let first = parsed "binary: 6\nFOOBAR\n" (no_keys list_set) in
    let second = parsed "binary: 6\nF" first.1 in
    let third = parsed "binary: 12\n" second.1 in
    is_done first (binary_field 6) && is_incomplete second.0 && is_incomplete third.0

binary_field_test_passes : binary_field_test ≡ true
unfolding parse Reference.tag Reference.take_while1 from_utf8 Reference.char intern_key
    Reference.take_while Reference.take parse_u64 equal
binary_field_test_passes = refl
