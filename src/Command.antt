-- ===== src/Command.antt =====
-- src/command.rs: commands and command lists, how they are checked, escaped and rendered. A text is
-- the list of its characters (`Std.Utf8`); a `Cow` is its text.
pub mod Render
pub mod Validation
pub mod Build
pub mod Arguments
pub mod Duration
pub mod Escape
pub mod Requests
use mpd_protocol.Prelude.{
  ℕ, zero, suc, ◌+◌, ◌≤◌, Bool, true, false, not, ◌&&◌, ◌||◌, Option, none, some, List, [], ◌∷◌,
  ◌++◌, leb, ◌==◌, if◌then◌else◌, length, Bytes, codes,
}
use mpd_protocol.Std.Utf8.{Str, encode_char, as_bytes, len_utf8}
use mpd_protocol.BytesMut.{BytesOps}

pub record Command : Type 0 where
  pub base : Str
  pub args : List Str

pub data CommandError : Type 0 where
  empty : CommandError
  invalid_character : ℕ → ℕ → CommandError
  unncessary_whitespace : CommandError
  command_list : CommandError

-- `Result<A, CommandError>`, or the panic of an `unwrap` or an `expect`.
pub data Outcome (A : Type 0) : Type 0 where
  ok : A → Outcome A
  err : CommandError → Outcome A
  panic : Outcome A

-- The operator `?`: a panic or an error ends the caller too.
infixl 5 ◌>>=◌
abbrev pub ◌>>=◌ : {A B : Type 0} → Outcome A → (A → Outcome B) → Outcome B
panic >>= k = panic
err why >>= k = err why
ok value >>= k = k value

infixl 5 ◌>>◌
abbrev pub ◌>>◌ : {B : Type 0} → Outcome (Unit {0}) → Outcome B → Outcome B
first >> second = first >>= λ done. second

abbrev pub unwrap : {A : Type 0} → Option A → Outcome A
unwrap none = panic
unwrap (some a) = ok a

-- `expect` on a result.
abbrev pub expect : {A : Type 0} → Outcome A → Outcome A
expect (err e) = panic
expect r = r

-- `char::is_ascii_whitespace`
abbrev pub is_ascii_whitespace : ℕ → Bool
is_ascii_whitespace c = c == b' ' || c == b'\t' || c == b'\n' || c == 0x0C || c == b'\r'

-- `chars().next()`
abbrev pub first_char : Str → Option ℕ
first_char [] = none
first_char (c ∷ s) = some c

-- `chars().next_back()`
abbrev pub last_char : Str → Option ℕ
last_char [] = none
last_char (c ∷ []) = some c
last_char (c ∷ d ∷ s) = last_char (d ∷ s)

-- `char_indices().find(…)`: the byte offset and the character, from an offset on.
abbrev pub find_from : (ℕ → Bool) → ℕ → Str → Option (ℕ × ℕ)
find_from p i [] = none
find_from p i (c ∷ s) = if p c then some (i, c) else find_from p (i + length (encode_char c)) s

-- `str::starts_with`
abbrev pub starts_with : Str → Str → Bool
starts_with s [] = true
starts_with [] (p ∷ ps) = false
starts_with (c ∷ s) (p ∷ ps) = c == p && starts_with s ps

pub validate_no_extra_whitespace : Str → Outcome (Unit {0})
validate_no_extra_whitespace command = do
  c ← unwrap (first_char command)
  if is_ascii_whitespace c then err unncessary_whitespace else do
    d ← unwrap (last_char command)
    if is_ascii_whitespace d then err unncessary_whitespace else ok tt

-- `char::is_ascii_alphabetic`
abbrev pub is_ascii_alphabetic : ℕ → Bool
is_ascii_alphabetic c = leb b'A' c && leb c b'Z' || leb b'a' c && leb c b'z'

pub is_valid_command_char : ℕ → Bool
is_valid_command_char c = is_ascii_alphabetic c || c == b'_'

pub is_command_list_command : Str → Bool
is_command_list_command command = starts_with command (codes "command_list")

-- The last test of `validate_command_part`, at the first invalid character if there is one.
pub check_chars : Option (ℕ × ℕ) → Str → Outcome (Unit {0})
unfolding is_command_list_command
check_chars (some (i, c)) command = err (invalid_character i c)
check_chars none command = if is_command_list_command command then err command_list else ok tt

pub validate_command_part : Str → Outcome (Unit {0})
unfolding check_chars validate_no_extra_whitespace is_valid_command_char
validate_command_part [] = err empty
validate_command_part (c ∷ s) = do
  validate_no_extra_whitespace (c ∷ s)
  check_chars (find_from (λ d. not (is_valid_command_char d)) 0 (c ∷ s)) (c ∷ s)

pub argument_result : Option (ℕ × ℕ) → Str → Outcome Str
argument_result none argument = ok argument
argument_result (some (i, c)) argument = err (invalid_character i c)

pub validate_argument : Str → Outcome Str
unfolding validate_no_extra_whitespace argument_result
validate_argument argument = do
  validate_no_extra_whitespace argument
  argument_result (find_from (λ c. c == b'\n') 0 argument) argument

pub should_escape : ℕ → Bool
should_escape c = c == b'\\' || c == b'"' || c == b'\''

-- `argument.contains(&[' ', '\t'][..])`
abbrev pub contains_blank : Str → Bool
contains_blank [] = false
contains_blank (c ∷ s) = c == b' ' || c == b'\t' || contains_blank s

-- `chars().filter(should_escape).count()`
pub escape_count : Str → ℕ
unfolding should_escape
escape_count [] = 0
escape_count (c ∷ s) = (if should_escape c then 1 else 0) + escape_count s

-- The loop over `argument.chars()`, with the text written so far.
pub push_escaped : Str → Str → Str
unfolding should_escape
push_escaped out [] = out
push_escaped out (c ∷ s) =
    push_escaped ((if should_escape c then out ++ b'\\' ∷ [] else out) ++ c ∷ []) s

-- The capacity that the output is given.
pub escaped_capacity : Str → Bool → ℕ
unfolding escape_count
escaped_capacity argument needs_quotes =
    len_utf8 argument + escape_count argument + (if needs_quotes then 2 else 0)

pub escaped : Str → Bool → Str
unfolding push_escaped
escaped argument needs_quotes =
    let start : Str = (if needs_quotes then b'"' ∷ [] else []) in
    let body = push_escaped start argument in if needs_quotes then body ++ b'"' ∷ [] else body

pub escape_argument_internal : Str → Bool → Str
unfolding escaped escape_count
escape_argument_internal argument enable_quotes =
    let needs_quotes = enable_quotes && contains_blank argument in
    if escape_count argument == 0 && not needs_quotes
    then argument
    else escaped argument needs_quotes

unfoldable pub escape_argument : Str → Str
unfolding escape_argument_internal
escape_argument argument = escape_argument_internal argument false

-- `Argument::render`, for the types whose rendering is text: the string types render to themselves.
pub record Argument (A : Type 0) : Type 0 where
  pub render : A → Str

abbrev pub str_argument : Argument Str
str_argument = record { render = λ s. s }

unfoldable pub bool_render : Bool → Str
bool_render true = codes "1"
bool_render false = codes "0"

abbrev pub bool_argument : Argument Bool
bool_argument = record { render = bool_render }

-- `Command::build`
unfoldable pub build : Str → Outcome Command
unfolding validate_command_part
build base = do validate_command_part base; ok (record { base = base; args = [] })

-- `Command::new`
unfoldable pub new : Str → Outcome Command
unfolding build
new base = expect (build base)

-- `Command::add_argument`: the command after the call.
pub add_argument : {A : Type 0} → Argument A → Command → A → Outcome Command
unfolding validate_argument escape_argument_internal
add_argument a command value = do
  let argument = a.render value
  checked ← validate_argument argument
  ok (record command { args = command.args ++ escape_argument_internal argument true ∷ [] })

-- `Command::argument`
unfoldable pub argument : {A : Type 0} → Argument A → Command → A → Outcome Command
unfolding add_argument
argument a command value = expect (add_argument a command value)
