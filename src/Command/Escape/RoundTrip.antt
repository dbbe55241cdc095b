-- ===== src/Command/Escape/RoundTrip.antt =====
-- Commands that are built from texts and rendered (src/command.rs), against the reader of lines.
use mpd_protocol.Prelude.{
  ℕ, ◌≡◌, inl, inr, refl, sym, ap, ◌∙◌, true, false, not, some, List, [], ◌∷◌, ◌++◌, append_assoc,
  append-nil, arith, Bool-cases, All, All-append, AllTest, Bytes,
}
use mpd_protocol.Std.Utf8.{Str, as_bytes, as_bytes-append, encode_char}
use mpd_protocol.BytesMut.{BytesOps, BytesLaws}
use mpd_protocol.Command.{
  Command, Outcome, ok, ◌>>=◌, contains_blank, is_valid_command_char, is_command_list_command,
  escape_argument_internal, should_escape, str_argument, build, add_argument,
}
use mpd_protocol.Command.Build.{build-eq-ok_iff, >>=-eq-ok}
use mpd_protocol.Command.Arguments.{add_argument-eq-ok_iff, is_newline}
use mpd_protocol.Command.Render.{render_list}
use mpd_protocol.Command.Render.{new}
use mpd_protocol.Command.Render.Length.{line, arg_bytes, render_list-append}
use mpd_protocol.Command.Escape.{escaped_chars, quoted_form, escape-cases}
use mpd_protocol.Command.Escape.Scanner.{
  scan, words, and_word, scan-escaped_chars, scan-quoted_form, words_name, scan_end, scan_blank,
}

-- The arguments that are added to a command one after the other.
unfoldable pub add_arguments : Command → List Str → Outcome Command
unfolding add_argument
add_arguments command [] = ok command
add_arguments command (s ∷ ss) = do
  next ← add_argument str_argument command s
  add_arguments next ss

abbrev pub escaped_argument : Str → Str
escaped_argument s = escape_argument_internal s true

abbrev pub escaped_arguments : List Str → List Str
escaped_arguments [] = []
escaped_arguments (s ∷ ss) = escaped_argument s ∷ escaped_arguments ss

abbrev pub NoNewline : Str → Type 0
NoNewline s = AllTest (λ c. not (is_newline c)) s

abbrev pub NoNewlines : List Str → Type 0
NoNewlines ss = All NoNewline ss

add_arguments-eq-ok :
    (command : Command) (ss : List Str) {made : Command}
    → add_arguments command ss ≡ ok made
    → (made ≡ record command { args = command.args ++ escaped_arguments ss }) × NoNewlines ss
unfolding add_arguments
add_arguments-eq-ok command [] e = (cc (append-nil command.args, e), tt)
add_arguments-eq-ok command (s ∷ ss) {made} e =
    let (next, first, rest) = >>=-eq-ok (add_argument str_argument command s) _ e in
    let (_, _, free, is_next) = (add_argument-eq-ok_iff str_argument command s next).0 first in
    let (is_made, frees) = add_arguments-eq-ok next ss rest in
    (
      is_made
          ∙ rw is_next (
              ap (λ args. record command { args = args })
                (append_assoc command.args (escaped_argument s ∷ []) (escaped_arguments ss))),
      (free, frees),
    )

-- The text of the arguments of a line.
abbrev pub args_text : List Str → Str
args_text [] = []
args_text (a ∷ as_) = b' ' ∷ (a ++ args_text as_)

-- The text of the whole line.
abbrev pub command_text : Str → List Str → Str
command_text base ss = base ++ args_text (escaped_arguments ss)

args_text-as_bytes : (as_ : List Str) → as_bytes (args_text as_) ≡ arg_bytes as_
unfolding as_bytes encode_char
args_text-as_bytes [] = refl
args_text-as_bytes (a ∷ as_) =
    ap (λ t. b' ' ∷ t)
      (as_bytes-append a (args_text as_) ∙ ap (λ t. as_bytes a ++ t) (args_text-as_bytes as_))

scan-escaped_argument :
    (s rest : Str) → scan false false [] (escaped_argument s ++ rest) ≡ scan false false s rest
scan-escaped_argument s rest = rw (escape-cases s true) (elim (Bool-cases (contains_blank s)) [
  | inl blank ↦ rw blank (scan-quoted_form s rest)
  | inr plain ↦ rw plain (scan-escaped_chars false [] s rest (rw plain refl))
])

-- Behind a word, the reader finds the arguments.
scan_args :
    (word : Str) (ss : List Str)
    → scan false false word (args_text (escaped_arguments ss)) ≡ some (word ∷ ss)
scan_args word [] = scan_end word
scan_args word (s ∷ ss) =
    scan_blank word (escaped_argument s ++ args_text (escaped_arguments ss))
    ∙ ap (and_word word)
        (scan-escaped_argument s (args_text (escaped_arguments ss)) ∙ scan_args s ss)

-- What holds of every character of the arguments, of the escapes and of the blanks holds of the line.
module _ (P : ℕ → Type 0) (backslash : P b'\\') (quote : P b'"') (space : P b' ') where
  escaped_chars-All : (s : Str) → All P s → All P (escaped_chars s)
  escaped_chars-All [] h = tt
  escaped_chars-All (c ∷ s) (hc, hs) = elim (Bool-cases (should_escape c)) [
    | inl special ↦ rw special (backslash, (hc, escaped_chars-All s hs))
    | inr plain ↦ rw plain (hc, escaped_chars-All s hs)
  ]

  escaped_argument-All : (s : Str) → All P s → All P (escaped_argument s)
  unfolding quoted_form
  escaped_argument-All s h = rw (escape-cases s true) (elim (Bool-cases (contains_blank s)) [
    | inl blank ↦
        rw blank
          (quote, All-append P (escaped_chars s) (b'"' ∷ []) (escaped_chars-All s h) (quote, tt))
    | inr plain ↦ rw plain (escaped_chars-All s h)
  ])

  args_text-All : (ss : List Str) → All (All P) ss → All P (args_text (escaped_arguments ss))
  args_text-All [] h = tt
  args_text-All (s ∷ ss) (hs, hss) = (
    space,
    All-append P (escaped_argument s) (args_text (escaped_arguments ss)) (escaped_argument-All s hs)
        (args_text-All ss hss),
  )

  pub command_text-All :
      (base : Str) (ss : List Str) → All P base → All (All P) ss → All P (command_text base ss)
  command_text-All base ss hb hs =
      All-append P base (args_text (escaped_arguments ss)) hb (args_text-All ss hs)

name-NoNewline : (s : Str) → AllTest is_valid_command_char s → NoNewline s
unfolding is_valid_command_char
name-NoNewline [] h = tt
name-NoNewline (c ∷ s) (hc, hs) = (ground arith, name-NoNewline s hs)

-- The line of a command that was built from a name and given arguments: its bytes, and what a reader finds.
pub record Line (base : Str) (ss : List Str) (command : Command) : Type 0 where
  pub spelled : line command ≡ as_bytes (command_text base ss) ++ b'\n' ∷ []
  pub one_line : NoNewline (command_text base ss)
  pub read : words (command_text base ss) ≡ some (base ∷ ss)
  pub name : AllTest is_valid_command_char base
  pub no_list : is_command_list_command base ≡ false

pub built-Line :
    (base : Str) (ss : List Str) (command : Command)
    → (build base >>= λ c. add_arguments c ss) ≡ ok command
    → Line base ss command
built-Line base ss command e =
    let (built, named, added) = >>=-eq-ok (build base) _ e in
    let (_, valid, no_list, is_built) = (build-eq-ok_iff base built).0 named in
    let (is_command, frees) = add_arguments-eq-ok built ss added in
    let made : command ≡ record { base = base; args = escaped_arguments ss } =
      is_command ∙ rw is_built in
    record {
      spelled = rw made (
          rw
            (
              as_bytes-append base (args_text (escaped_arguments ss)),
              args_text-as_bytes (escaped_arguments ss),
            )
            (sym (append_assoc (as_bytes base) (arg_bytes (escaped_arguments ss)) (b'\n' ∷ []))));
      one_line =
          command_text-All (λ c. not (is_newline c) ≡ true) refl refl refl base ss
            (name-NoNewline base valid) frees;
      read = words_name base (args_text (escaped_arguments ss)) valid ∙ scan_args base ss;
      name = valid;
      no_list = no_list;
    }

-- A command that was built from a name and given arguments is sent as one line: what is appended to
-- the buffer is a text without newlines and then a newline, and a reader of that text finds the name
-- and exactly those arguments.
pub words-render :
    {b : BytesOps} (base : Str) (ss : List Str) (command : Command) (dst : Bytes)
    → BytesLaws b
    → (build base >>= λ c. add_arguments c ss) ≡ ok command
    → (text : Str) × (render_list b (new command) dst ≡ dst ++ (as_bytes text ++ b'\n' ∷ []))
      × NoNewline text
      × (words text ≡ some (base ∷ ss))
words-render {b} base ss command dst laws e =
    let l = built-Line base ss command e in
    (
      command_text base ss,
      render_list-append (new command) dst laws ∙ ap (λ t. dst ++ t) l.spelled,
      l.one_line,
      l.read,
    )
