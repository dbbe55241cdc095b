-- ===== src/Tests/Commands.antt =====
-- The theorems on commands at concrete inputs, and runs on the inputs of the source's tests.
use mpd_protocol.Prelude.{
  ℕ, ◌≡◌, ◌≢◌, ◌↔◌, refl, false, not, some, [], ◌∷◌, ◌++◌, ◌+◌, AllTest, length, codes,
}
use mpd_protocol.Prelude.{true}
use mpd_protocol.Std.Utf8.{Str, as_bytes, encode_char}
use mpd_protocol.BytesMut.{list_bytes, list_bytes-BytesLaws}
use mpd_protocol.Command.{
  Command, ok, err, panic, ◌>>=◌, invalid_character, is_valid_command_char, is_command_list_command,
  escape_argument, str_argument, build, add_argument,
}
use mpd_protocol.Command.Validation.{FirstAt, invalid}
use mpd_protocol.Command.Build.{build-eq-ok_iff, build_errors}
use mpd_protocol.Command.Arguments.{
  PlainEnds, is_newline, with_argument, add_argument-eq-ok_iff, add_argument_panics_iff,
}
use mpd_protocol.Command.Render.{new, rendered_length_hint, render, render_list}
use mpd_protocol.Command.Render.Length.{rendered_length_hint_exact}
use mpd_protocol.Std.Utf8.{len_utf8}
use mpd_protocol.Command.{escaped, escaped_capacity}
use mpd_protocol.Command.Escape.Capacity.{len_utf8-escaped}
use mpd_protocol.Command.Escape.Scanner.{words}
use mpd_protocol.Command.Escape.RoundTrip.{add_arguments, NoNewline, words-render}

abbrev play : Command
play = record { base = codes "play"; args = codes "1" ∷ [] }

built : (build (codes "status")) ≡ ok (record { base = codes "status"; args = [] })
unfolding build
built = refl

refused : build (codes "play1") ≡ err (invalid_character 4 b'1')
unfolding build encode_char
refused = refl

escaped_once : escape_argument (codes "foo'bar") ≡ codes "foo\\'bar"
unfolding escape_argument
escaped_once = refl

build-eq-ok_iff_example : (build (codes "play") ≡ ok play) ↔ (
    (codes "play" ≢ [])
    × AllTest is_valid_command_char (codes "play")
    × (is_command_list_command (codes "play") ≡ false)
    × (play ≡ record { base = codes "play"; args = [] }))
build-eq-ok_iff_example = build-eq-ok_iff (codes "play") play

build_errors_example :
    (build (codes "play1") ≢ panic)
    × ((i c : ℕ)
        → build (codes "play1") ≡ err (invalid_character i c)
        → FirstAt invalid (codes "play1") i c)
build_errors_example = build_errors (codes "play1")

add_argument-eq-ok_iff_example :
    (add_argument str_argument play (codes "a b")
      ≡ ok (record { base = codes "play"; args = codes "1" ∷ codes "\"a b\"" ∷ [] }))
    ↔ ((codes "a b" ≢ [])
        × PlainEnds (codes "a b")
        × AllTest (λ c. not (is_newline c)) (codes "a b")
        × (record { base = codes "play"; args = codes "1" ∷ codes "\"a b\"" ∷ [] }
            ≡ with_argument str_argument play (codes "a b")))
add_argument-eq-ok_iff_example =
    add_argument-eq-ok_iff str_argument play (codes "a b")
      (record { base = codes "play"; args = codes "1" ∷ codes "\"a b\"" ∷ [] })

add_argument_panics_iff_example :
    (add_argument str_argument play [] ≡ panic) ↔ (str_argument.render [] ≡ [])
add_argument_panics_iff_example = add_argument_panics_iff str_argument play []

rendered_length_hint_exact_example :
    length (render list_bytes play (codes "x")) ≡ length (codes "x") + rendered_length_hint play
rendered_length_hint_exact_example =
    rendered_length_hint_exact play (codes "x") list_bytes-BytesLaws

abbrev pub find_command : Command
find_command = record { base = codes "find"; args = codes "title" ∷ codes "\"say \\\"a\\\"\"" ∷ [] }

pub found_command :
    (build (codes "find") >>= λ c. add_arguments c (codes "title" ∷ codes "say \"a\"" ∷ []))
    ≡ ok find_command
unfolding build add_arguments
found_command = refl

words-render_example :
    (text : Str) × (render_list list_bytes (new find_command) (codes "x")
      ≡ codes "x" ++ (as_bytes text ++ b'\n' ∷ []))
    × NoNewline text
    × (words text ≡ some (codes "find" ∷ codes "title" ∷ codes "say \"a\"" ∷ []))
words-render_example =
    words-render (codes "find") (codes "title" ∷ codes "say \"a\"" ∷ []) find_command (codes "x")
      list_bytes-BytesLaws found_command

len_utf8-escaped_example :
    len_utf8 (escaped (codes "a \"b\"") true) ≡ escaped_capacity (codes "a \"b\"") true
len_utf8-escaped_example = len_utf8-escaped (codes "a \"b\"") true
