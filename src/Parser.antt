-- ===== src/Parser.antt =====
-- The grammar of src/parser.rs, over the combinators of `nom`. Each function has the name that it
-- has there. A closure that is given to `map` or `map_res` is a function here; `ParsedComponent`'s
-- only effect, interning a key, is part of the value that the successful alternative returns.
use mpd_protocol.Prelude.{
  ℕ, ◌≡◌, Bool, not, ◌||◌, Option, none, some, [], ◌==◌, length, Bytes, codes,
}
pub mod Wire
pub mod Inversion
pub mod Sound
pub mod Accepts
pub mod Evaluate
pub mod Complete
pub mod Greeting
pub mod Stable
pub mod Streaming
use mpd_protocol.Std.Utf8.{Str, from_utf8}
use mpd_protocol.Std.Number.{parse_u64}
use mpd_protocol.Nom.Laws.{IResult, done, incomplete, error, failure, Parser, and_then, NomOps}
use mpd_protocol.Interner
use mpd_protocol.Interner.{Arc, HashSetOps, InternedKeys}

-- `Error` of src/response.rs: what the server says of a failed command.
pub record Error : Type 0 where
  pub code : ℕ
  pub command_index : ℕ
  pub current_command : Option Str
  pub message : Str

pub data ParsedComponent : Type 0 where
  end_of_frame : ParsedComponent
  end_of_response : ParsedComponent
  error_response : Error → ParsedComponent
  field : Arc → Str → ParsedComponent
  binary_field : ℕ → ParsedComponent

pub record RawError : Type 0 where
  pub code : ℕ
  pub command_index : ℕ
  pub current_command : Option Str
  pub message : Str

pub into_owned_error : RawError → Error
into_owned_error e = record {
  code = e.code;
  command_index = e.command_index;
  current_command = e.current_command;
  message = e.message;
}

-- The bytes that each scan takes.
abbrev pub not_newline : ℕ → Bool
not_newline b = not (b == b'\n')

module _ (n : NomOps) where
  abbrev pub is_command_byte : ℕ → Bool
  is_command_byte b = n.is_alphabetic b || b == b'_'

  abbrev pub is_key_byte : ℕ → Bool
  is_key_byte b = n.is_alphabetic b || b == b'_' || b == b'-'

  unfoldable pub greeting : Parser Str
  greeting =
      n.delimited (n.tag (codes "OK MPD ")) (n.map_res (n.take_while1 not_newline) from_utf8)
        n.newline

  -- `FromStr` is given as the function that parses the text.
  unfoldable pub number : {O : Type 0} → (Str → Option O) → Parser O
  number from_str = n.map_res (n.map_res n.digit1 from_utf8) from_str

  unfoldable pub error_code_and_index : Parser (ℕ × ℕ)
  unfolding number
  error_code_and_index =
      n.delimited (n.char b'[')
        (n.separated_pair (number parse_u64) (n.char b'@') (number parse_u64)) (n.char b']')

  unfoldable pub error_current_command : Parser (Option Str)
  error_current_command =
      n.delimited (n.char b'{') (n.opt (n.map_res (n.take_while1 is_command_byte) from_utf8))
        (n.char b'}')

  unfoldable pub parse_error : Parser RawError
  unfolding error_code_and_index error_current_command
  parse_error i =
      and_then
        (n.delimited (n.tag (codes "ACK "))
          (n.tuple (n.terminated error_code_and_index (n.char b' '))
            (n.terminated error_current_command (n.char b' '))
            (n.map_res (n.take_while not_newline) from_utf8))
          n.newline i)
        λ ((code, index), command, message) remaining. done remaining (record {
          code = code;
          command_index = index;
          current_command = command;
          message = message;
        })

  unfoldable pub key_value_field : Parser (Str × Str)
  key_value_field =
      n.separated_pair (n.map_res (n.take_while1 is_key_byte) from_utf8) (n.tag (codes ": "))
        (n.map_res (n.terminated (n.take_while not_newline) n.newline) from_utf8)

  unfoldable pub binary_prefix : Parser ℕ
  unfolding number
  binary_prefix = n.delimited (n.tag (codes "binary: ")) (number parse_u64) n.newline

  unfoldable pub parse_binary_field : Parser Bytes
  unfolding binary_prefix
  parse_binary_field i =
      and_then (binary_prefix i) λ len rest. n.cut (n.terminated (n.take len) n.newline) rest

module _ (n : NomOps) (h : HashSetOps) where
  -- What a successful alternative returns: the component, once it is given the interned keys.
  abbrev pub Component : Type 0
  Component = InternedKeys h → ParsedComponent × InternedKeys h

  abbrev pub plain : ParsedComponent → Component
  plain c keys = (c, keys)

  abbrev pub interned_field : Str × Str → Component
  interned_field (k, v) keys =
      let (key, keys') = Interner.intern_key h keys k in (field key v, keys')

  unfoldable pub component : Parser Component
  unfolding parse_error parse_binary_field key_value_field into_owned_error
  component =
      n.alt (n.map (n.tag (codes "OK\n")) (λ _. plain end_of_response))
        (n.map (n.tag (codes "list_OK\n")) (λ _. plain end_of_frame))
        (n.map (parse_error n) (λ e. plain (error_response (into_owned_error e))))
        (n.map (parse_binary_field n) (λ bin. plain (binary_field (length bin))))
        (n.map (key_value_field n) interned_field)

  abbrev pub apply : InternedKeys h → IResult Component → IResult ParsedComponent × InternedKeys h
  apply keys (done rest c) = let (p, keys') = c keys in (done rest p, keys')
  apply keys incomplete = (incomplete, keys)
  apply keys error = (error, keys)
  apply keys failure = (failure, keys)

  -- `ParsedComponent::parse`: the interned keys are `&mut`, so the call returns them too.
  unfoldable pub parse : Bytes → InternedKeys h → IResult ParsedComponent × InternedKeys h
  unfolding component
  parse i keys = apply keys (component i)
