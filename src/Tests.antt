-- ===== src/Tests.antt =====
-- The theorems at concrete inputs, and runs of the definitions on the inputs of the source's tests.
mod Commands
mod Io
mod Greeting
mod Durations
mod Keys
mod Replies
mod Words
mod Exchange
mod Source
mod Equality
mod Cut
use mpd_protocol.Prelude.{
  ◌-◌, ℕ, ◌≡◌, ◌≢◌, inl, inr, refl, sym, Bool, true, false, Option, none, some, List, [], ◌∷◌, ◌++◌,
  arith, All, AllTest, length, map, Bytes, codes, equal,
}
use mpd_protocol.Std.Utf8.{Str, as_bytes, encode_char, from_utf8}
use mpd_protocol.Std.Number.{parse_u64}
use mpd_protocol.Crates.{Crates, reference, reference-CratesLaws}
use mpd_protocol.Interner.HashSet.{Arc, list_set, list_set-HashSetLaws}
use mpd_protocol.Interner.{InternedKeys, no_keys, intern_key}
use mpd_protocol.Interner.Sharing.{intern_all, intern_key-shares}
use mpd_protocol.Nom.Laws.{done, incomplete}
use mpd_protocol.Nom.Reference
use mpd_protocol.Nom.Reference.{nom, nom-NomLaws}
use mpd_protocol.Parser.{
  ParsedComponent, parse, component, greeting, end_of_response, end_of_frame, field, error_response,
}
use mpd_protocol.Parser.Stable.{Stable}
use mpd_protocol.Parser.Streaming.{component-Stable}
use mpd_protocol.Parser.Wire.{Message, Wire, Says}
use mpd_protocol.Parser.Accepts.{parse_sound}
use mpd_protocol.Frame.{Frame, find, get, collect}
use mpd_protocol.Frame.{
  IntoIter, into_iter_next, into_iter_next_back, next as next_field, next_back as next_field_back,
}
use mpd_protocol.Frame.Owned.{shown, into_iter_lem}
use mpd_protocol.Frame.Access.{values, first, rest, get_lem, find-first}
use mpd_protocol.Frame.Multimap.{gets, pops, gets-pops}
use mpd_protocol.Frame.Iteration.{to_list}
use mpd_protocol.Frame.Iteration as FrameIteration
use mpd_protocol.Response.{Response, FrameResult, frames_iter, size_hint, next}
use mpd_protocol.Response.Iteration.{items}
use mpd_protocol.Response.Iteration as ResponseIteration
use mpd_protocol.Builder.{
  ResponseBuilder, initial, parse_buffer, ok, panicked, out_of_fuel, new, on_field, on_binary,
  finish_frame, finish, finish_error,
}
use mpd_protocol.Builder.Progress.{parse_buffer_total}
use mpd_protocol.Builder.Streaming.{resume, parse_buffer-append}
use mpd_protocol.Builder.Invariant.{Promised, WellFormed, parse_buffer-Promised, initial-WellFormed}

-- Two fields, a frame's end and an error, as a server sends them.
abbrev response_bytes : Bytes
response_bytes = codes "foo: bar\nOK\n"

parsed_field :
    (parse_buffer reference (new reference) response_bytes).0
    ≡ ok (
        some (record {
          frames =
              record {
                fields = some (record { addr = 0; text = codes "foo" }, codes "bar") ∷ [];
                binary = none;
              }
              ∷ [];
          error = none;
        }))
unfolding parse_buffer on_field finish parse Reference.tag Reference.take_while1 from_utf8
    Reference.char intern_key Reference.take_while Reference.take parse_u64
parsed_field = refl

-- A binary field and the fields around it, as in the test of `binary_response`.
parsed_binary :
    (parse_buffer reference (new reference) (codes "binary: 2\nA\n\nlist_OK\nOK\n")).0
    ≡ ok (
        some (record {
          frames = record { fields = []; binary = some (codes "A\n") } ∷ [];
          error = none;
        }))
unfolding parse_buffer on_binary finish_frame finish parse Reference.tag Reference.take_while1
    from_utf8 Reference.char intern_key Reference.take_while Reference.take parse_u64
parsed_binary = refl

-- The error ends a list after its second frame.
parsed_error :
    (parse_buffer reference (new reference) (codes "list_OK\nACK [5@1] {foo} bad\nrest")).0
    ≡ ok (
        some (record {
          frames = record { fields = []; binary = none } ∷ [];
          error = some (record {
            code = 5;
            command_index = 1;
            current_command = some (codes "foo");
            message = codes "bad";
          });
        }))
unfolding parse_buffer finish_frame finish_error parse Reference.tag Reference.take_while1 from_utf8
    Reference.char intern_key Reference.take_while Reference.take parse_u64
parsed_error = refl

-- The theorems at concrete inputs.

parse_buffer-append_example :
    parse_buffer reference (new reference) (codes "foo: b" ++ codes "ar\nOK\n")
    ≡ resume reference (codes "ar\nOK\n") (parse_buffer reference (new reference) (codes "foo: b"))
parse_buffer-append_example =
    parse_buffer-append (new reference) (codes "foo: b") (codes "ar\nOK\n") reference-CratesLaws
      (omega arith)

parse_buffer_total_example :
    ((parse_buffer reference (new reference) response_bytes).0 ≢ panicked)
    × ((parse_buffer reference (new reference) response_bytes).0 ≢ out_of_fuel)
parse_buffer_total_example =
    parse_buffer_total (new reference) response_bytes reference-CratesLaws (omega arith)

new-WellFormed : WellFormed initial
new-WellFormed = initial-WellFormed

parse_buffer-Promised_example :
    Promised
      (parse_buffer reference (new reference) response_bytes).0
      (parse_buffer reference (new reference) response_bytes).1.state
parse_buffer-Promised_example = parse_buffer-Promised (new reference) response_bytes new-WellFormed

abbrev foo_field : ParsedComponent
foo_field = field (record { addr = 0; text = codes "foo" }) (codes "bar")

parsed_line :
    (parse nom list_set (codes "foo: bar\nOK\n") (no_keys list_set)).0
    ≡ done (codes "OK\n") foo_field
unfolding parse Reference.tag Reference.take_while1 from_utf8 Reference.char intern_key
    Reference.take_while
parsed_line = refl

parse_sound_example :
    (m : Message) × Wire (codes "foo: bar\nOK\n") (codes "OK\n") m × Says foo_field m
parse_sound_example =
    parse_sound (codes "foo: bar\nOK\n") (codes "OK\n") (no_keys list_set) foo_field nom-NomLaws
      list_set-HashSetLaws parsed_line

abbrev arc : Str → Arc
arc k = record { addr = 0; text = k }

-- Two values of one key, a removed field between them, and another key.
abbrev song : Frame
song = record {
  fields =
      some (arc (codes "id"), codes "1")
      ∷ none
      ∷ some (arc (codes "file"), codes "a")
      ∷ some (arc (codes "id"), codes "2")
      ∷ [];
  binary = some (codes "x");
}

gets-pops_example :
    let keys = codes "id" ∷ codes "file" ∷ codes "id" ∷ codes "id" ∷ [] in
    ((gets keys song).0 ≡ (pops keys (λ i. values i song)).0)
    × ((j : Str) → values j (gets keys song).1 ≡ (pops keys (λ i. values i song)).1 j)
    × ((gets keys song).1.binary ≡ song.binary)
gets-pops_example = gets-pops (codes "id" ∷ codes "file" ∷ codes "id" ∷ codes "id" ∷ []) song

four_gets :
    (gets (codes "id" ∷ codes "file" ∷ codes "id" ∷ codes "id" ∷ []) song).0
    ≡ some (codes "1") ∷ some (codes "a") ∷ some (codes "2") ∷ none ∷ []
unfolding gets equal
four_gets = refl

abbrev listing : Response
listing = record {
  frames = song ∷ record { fields = []; binary = none } ∷ [];
  error = some (record {
    code = 5;
    command_index = 2;
    current_command = some (codes "foo");
    message = codes "unknown";
  });
}

drain-frames_iter_example :
    let d = ResponseIteration.drain (false ∷ true ∷ []) (frames_iter listing) in
    (d.front ++ (items d.left ++ d.back)
      ≡ map FrameResult.ok listing.frames ++ map FrameResult.err (to_list listing.error))
    × (length (items d.left)
        ≡ length (map FrameResult.ok listing.frames ++ map FrameResult.err (to_list listing.error))
          - 2)
drain-frames_iter_example = ResponseIteration.drain-frames_iter (false ∷ true ∷ []) listing
