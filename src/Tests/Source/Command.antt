-- ===== src/Tests/Source/Command.antt =====
-- The unit tests of src/command.rs.
use Prim.Native.String.{String}
use mpd_protocol.Prelude.{◌≡◌, refl, Bool, true, false, ◌&&◌, equal, [], codes, arith}
use mpd_protocol.Std.Utf8.{as_bytes, encode_char}
use mpd_protocol.BytesMut.{list_bytes}
use mpd_protocol.Equality.{same, command_error_eq}
use mpd_protocol.Command.{
  Command, CommandError, empty, invalid_character, unncessary_whitespace, command_list, Outcome, ok,
  err, panic, ◌>>=◌, escape_argument, bool_render, str_argument, build, new, argument,
}
use mpd_protocol.Command.Render.{CommandList, render, render_list, add}
use mpd_protocol.Command.Render as Render
use mpd_protocol.Std.Decimal.{decimal}
use mpd_protocol.Command.Duration.{Duration, duration_render}
use mpd_protocol.Tests.Durations.{exact}
use mpd_protocol.Tests.Source.{is_text}

-- The command is rendered into an empty buffer.
abbrev renders : Outcome Command → String → Bool
renders (ok c) text = is_text (render list_bytes c []) text
renders (err e) text = false
renders panic text = false

abbrev is_err : Outcome Command → CommandError → Bool
is_err (err e) e' = same e e'
is_err (ok c) e' = false
is_err panic e' = false

abbrev single_render : Bool
single_render =
    renders (build (codes "status")) "status\n"
    && renders (new (codes "pause") >>= λ c. argument str_argument c (codes "1")) "pause 1\n"
    && renders (new (codes "hello") >>= λ c. argument str_argument c (codes "foo bar"))
        "hello \"foo bar\"\n"
    && renders (new (codes "hello") >>= λ c. argument str_argument c (codes "foo's bar\""))
        "hello \"foo\\'s bar\\\"\"\n"
    && is_err (build (codes " hello")) unncessary_whitespace
    && is_err (build []) empty
    && is_err (build (codes "hello world")) (invalid_character 5 b' ')
    && is_err (build (codes "command_list_ok_begin")) command_list

single_render_passes : single_render ≡ true
unfolding build new argument render as_bytes encode_char equal
single_render_passes = refl

abbrev list_renders : Outcome CommandList → String → Bool
list_renders (ok l) text = is_text (render_list list_bytes l []) text
list_renders (err e) text = false
list_renders panic text = false

abbrev command_list_render : Bool
command_list_render =
    let starter : Outcome CommandList = (new (codes "status") >>= λ c. ok (Render.new c)) in
    let hello : Outcome Command =
      (new (codes "hello") >>= λ c. argument str_argument c (codes "world")) in
    list_renders starter "status\n"
    && list_renders (starter >>= λ l. hello >>= λ c. ok (add l c))
        "command_list_ok_begin\nstatus\nhello world\ncommand_list_end\n"

command_list_render_passes : command_list_render ≡ true
unfolding new argument render_list as_bytes encode_char equal
command_list_render_passes = refl

abbrev argument_escaping : Bool
argument_escaping =
    is_text (escape_argument (codes "status")) "status"
    && is_text (escape_argument (codes "Joe's")) "Joe\\'s"
    && is_text (escape_argument (codes "hello\\world")) "hello\\\\world"

argument_escaping_passes : argument_escaping ≡ true
unfolding escape_argument equal
argument_escaping_passes = refl

-- The floating-point numbers of the test are exact (`Tests/Durations`).
abbrev two_seconds : Duration
two_seconds = record { secs = 2; secs_small = omega arith; nanos = 0; nanos_small = omega arith }

abbrev two_and_a_third : Duration
two_and_a_third = record {
  secs = 2;
  secs_small = omega arith;
  nanos = 345670000;
  nanos_small = omega arith;
}

abbrev argument_rendering : Bool
argument_rendering =
    is_text (bool_render true) "1"
    && is_text (bool_render false) "0"
    && is_text (duration_render exact two_seconds) "2.000"
    && is_text (duration_render exact two_and_a_third) "2.346"

argument_rendering_passes : argument_rendering ≡ true
unfolding bool_render duration_render decimal equal
argument_rendering_passes = refl
