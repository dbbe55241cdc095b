-- ===== src/Command/Requests/Lines.antt =====
-- The lines of built commands (src/command.rs), as a reader of requests sees them, alone and inside a list.
use mpd_protocol.Prelude.{
  ℕ, ◌<◌, ◌≡◌, ◌≢◌, inl, inr, refl, sym, ap, ◌∙◌, true, false, Option, some, List, [], ◌∷◌, ◌++◌,
  append_assoc, append-nil, arith, ◌==◌, Bool-cases, equal, equal_iff, All, AllTest, Bytes,
}
use mpd_protocol.Std.Utf8.{
  Str, IsScalar, as_bytes, from_utf8, from_utf8-as_bytes, as_bytes-Lacks, IsScalar-ascii,
}
use mpd_protocol.Command.{
  Command, Outcome, ok, is_valid_command_char, is_command_list_command, starts_with, build,
}
use mpd_protocol.Command
use mpd_protocol.Command.Render.Length.{line, lines}
use mpd_protocol.Command.Escape.RoundTrip.{
  add_arguments, command_text, escaped_arguments, args_text, command_text-All, NoNewline,
  built-Line,
}
use mpd_protocol.Command.Requests.Spelling.{
  Documented, TokenizerLaws, no_more, is_letter, is_name_char, begins_with_letter,
  args_text-SpelledAll, words-documented,
}
use mpd_protocol.Command.Requests.{
  Tokenizer, split_lines, read_line, begin_line, end_line, requests,
}

-- The command was built from a name and arguments that are texts in a documented spelling, and these are its
-- words. The protocol's names begin with a letter.
pub record Built (command : Command) (ws : List Str) : Type 0 where
  pub base : Str
  pub arguments : List Str
  pub are_words : ws ≡ base ∷ arguments
  pub made : (Command.◌>>=◌ (build base) (λ c. add_arguments c arguments)) ≡ ok command
  pub scalars : All (All IsScalar) arguments
  pub letter : begins_with_letter base ≡ true
  pub documented : All Documented arguments

-- The line of the command, as a reader of requests sees it.
pub record Readable (words : Tokenizer) (command : Command) (ws : List Str) : Type 0 where
  pub bytes : Bytes
  pub spelled : line command ≡ bytes ++ b'\n' ∷ []
  pub one_line : All (λ c. c ≢ b'\n') bytes
  pub read : read_line words bytes ≡ some ws
  pub not_begin : equal bytes begin_line ≡ false
  pub not_end : equal bytes end_line ≡ false

name_ascii : (s : Str) → AllTest is_valid_command_char s → All (λ c. c < 0x80) s
unfolding is_valid_command_char
name_ascii [] h = tt
name_ascii (c ∷ s) (hc, hs) = (ground arith, name_ascii s hs)

lacks_newline : (s : Str) → NoNewline s → All (λ c. c ≢ b'\n') s
lacks_newline [] h = tt
lacks_newline (c ∷ s) (hc, hs) = (ground arith, lacks_newline s hs)

-- A line that a reader takes for a command which is no marker is not the marker.
not_marker :
    (words : Tokenizer) (bytes marker base : Bytes) (ss : List Str)
    → read_line words bytes ≡ some (base ∷ ss)
    → read_line words marker ≡ some (marker ∷ [])
    → is_command_list_command base ≡ false
    → is_command_list_command marker ≡ true
    → equal bytes marker ≡ false
not_marker words bytes marker base ss read marked plain lists =
    elim (Bool-cases (equal bytes marker)) [
      | inl same ↦
          let here : bytes ≡ marker = (equal_iff bytes marker).0 same in
          let both : ◌≡◌ {A = Option (List Str)} (some (base ∷ ss)) (some (marker ∷ [])) =
            sym read ∙ ap (read_line words) here ∙ marked in
          let names : base ≡ marker = cc in cc (names, plain, lists)
      | inr other ↦ other
    ]

-- A marker is read as one word.
marker_read :
    {words : Tokenizer} (c : ℕ) (name : Str)
    → TokenizerLaws words
    → is_letter c ≡ true
    → AllTest is_name_char name
    → from_utf8 (c ∷ name) ≡ some (c ∷ name)
    → read_line words (c ∷ name) ≡ some ((c ∷ name) ∷ [])
unfolding read_line
marker_read {words} c name laws letter all text = rw text (
    ap (λ t. words (c ∷ t)) (sym (append-nil name))
    ∙ laws.words_lem c name [] [] letter all no_more)

markers_read :
    {words : Tokenizer}
    → TokenizerLaws words
    → (read_line words begin_line ≡ some (begin_line ∷ []))
      × (read_line words end_line ≡ some (end_line ∷ []))
unfolding from_utf8
markers_read laws = (
  marker_read b'c' _ laws refl (ground arith) refl,
  marker_read b'c' _ laws refl (ground arith) refl,
)

markers_list :
    (is_command_list_command begin_line ≡ true) × (is_command_list_command end_line ≡ true)
unfolding is_command_list_command
markers_list = (refl, refl)

pub Built-Readable :
    {words : Tokenizer} (command : Command) (ws : List Str)
    → TokenizerLaws words
    → Built command ws
    → Readable words command ws
Built-Readable {words} command ws laws h =
    let l = built-Line h.base h.arguments command h.made in
    let text = command_text h.base h.arguments in
    let ascii : b'\\' < 0x80 = omega arith in
    let scalars : All IsScalar text =
      command_text-All IsScalar (inl (omega arith)) (inl (omega arith)) (inl (omega arith)) h.base
        h.arguments (IsScalar-ascii h.base (name_ascii h.base l.name)) h.scalars in
    let found : words text ≡ some (h.base ∷ h.arguments) =
      words-documented h.base (args_text (escaped_arguments h.arguments)) h.arguments laws h.letter
        l.name (args_text-SpelledAll h.arguments h.documented) in
    let read : read_line words (as_bytes text) ≡ some (h.base ∷ h.arguments) =
      unfold read_line in rw (from_utf8-as_bytes text scalars) found in
    record {
      bytes = as_bytes text;
      spelled = l.spelled;
      one_line = as_bytes-Lacks b'\n' text (omega arith) (lacks_newline text l.one_line);
      read = read ∙ ap some (sym h.are_words);
      not_begin =
          not_marker words (as_bytes text) begin_line h.base h.arguments read (markers_read laws).0
            l.no_list markers_list.0;
      not_end =
          not_marker words (as_bytes text) end_line h.base h.arguments read (markers_read laws).1
            l.no_list markers_list.1;
    }

split_lines-append :
    (acc l s : Bytes) (ls : List Bytes)
    → All (λ c. c ≢ b'\n') l
    → split_lines [] s ≡ some ls
    → split_lines acc (l ++ b'\n' ∷ s) ≡ some ((acc ++ l) ∷ ls)
unfolding split_lines
split_lines-append acc [] s ls h e =
    let here : (b'\n' == b'\n') ≡ true = refl in rw (e, append-nil acc) refl
split_lines-append acc (c ∷ l) s ls (hc, hl) e =
    let later : (c == b'\n') ≡ false = ground arith in
    rw later
      (split_lines-append (acc ++ c ∷ []) l s ls hl e ∙ rw (append_assoc acc (c ∷ []) l) refl)

-- The line of a built command is one line.
pub split_line :
    {words : Tokenizer} (command : Command) (ws : List Str) (r : Readable words command ws)
    (s : Bytes) (ls : List Bytes)
    → split_lines [] s ≡ some ls
    → split_lines [] (line command ++ s) ≡ some (r.bytes ∷ ls)
split_line command ws r s ls e =
    rw (r.spelled, append_assoc r.bytes (b'\n' ∷ []) s)
      (split_lines-append [] r.bytes s ls r.one_line e)

pub split_marker :
    (marker s : Bytes) (ls : List Bytes)
    → All (λ c. c ≢ b'\n') marker
    → split_lines [] s ≡ some ls
    → split_lines [] ((marker ++ b'\n' ∷ []) ++ s) ≡ some (marker ∷ ls)
split_marker marker s ls h e =
    rw (append_assoc marker (b'\n' ∷ []) s) (split_lines-append [] marker s ls h e)

-- The commands were built, and these are their words.
abbrev pub AllBuilt : List Command → List (List Str) → Type 0
AllBuilt [] [] = Unit {0}
AllBuilt (c ∷ cs) (ws ∷ wss) = Built c ws × AllBuilt cs wss
AllBuilt _ _ = ⊥

-- Inside a list: the lines of commands, and the lines behind them.
pub record Inside (words : Tokenizer) (cs : List Command) (wss : List (List Str)) (s : Bytes)
    (ls : List Bytes) : Type 0 where
  pub before : List Bytes
  pub splits : split_lines [] (lines cs ++ s) ≡ some (before ++ ls)
  pub read_all :
      (acc : List (List Str))
      → requests words (some acc) (before ++ ls) ≡ requests words (some (acc ++ wss)) ls

next_command :
    {words : Tokenizer} (acc : List (List Str)) (command : Command) (ws : List Str)
    (r : Readable words command ws) (ls : List Bytes)
    → requests words (some acc) (r.bytes ∷ ls) ≡ requests words (some (acc ++ ws ∷ [])) ls
unfolding requests
next_command acc command ws r ls = rw (r.not_end, r.read) refl

pub lines-Inside :
    {words : Tokenizer} (cs : List Command) (wss : List (List Str)) (s : Bytes) (ls : List Bytes)
    → TokenizerLaws words
    → AllBuilt cs wss
    → split_lines [] s ≡ some ls
    → Inside words cs wss s ls
lines-Inside [] [] s ls laws h e = record {
  before = [];
  splits = e;
  read_all = λ acc. rw (append-nil acc) refl;
}
lines-Inside [] (ws ∷ wss) s ls laws h e = elim h [ ]
lines-Inside (c ∷ cs) [] s ls laws h e = elim h [ ]
lines-Inside (c ∷ cs) (ws ∷ wss) s ls laws (hc, hs) e =
    let r = Built-Readable c ws laws hc in
    let i = lines-Inside cs wss s ls laws hs e in
    record {
      before = r.bytes ∷ i.before;
      splits =
          rw (append_assoc (line c) (lines cs) s)
            (split_line c ws r (lines cs ++ s) (i.before ++ ls) i.splits);
      read_all = λ acc.
          next_command acc c ws r (i.before ++ ls)
          ∙ i.read_all (acc ++ ws ∷ [])
          ∙ rw (append_assoc acc (ws ∷ []) wss) refl;
    }
