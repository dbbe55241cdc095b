-- ===== src/Command/Requests/Spelling.antt =====
-- How the protocol documents the words of a line: a name, and arguments behind one blank each, which stand as
-- they are or between double quotes; and that src/command.rs spells arguments in these ways.
use mpd_protocol.Prelude.{
  ℕ, ◌<◌, ◌≡◌, ◌≢◌, ◌⊎◌, inl, inr, refl, sym, ap, ◌∙◌, Bool, true, false, not, ◌&&◌, ◌||◌, some,
  List, [], ◌∷◌, ◌++◌, arith, ◌==◌, ltb, leb, Bool-cases, All, AllTest,
}
use mpd_protocol.Std.Utf8.{Str}
use mpd_protocol.Command.{should_escape, contains_blank, is_valid_command_char}
use mpd_protocol.Command.Escape.{escaped_chars, quoted_form, escape-cases}
use mpd_protocol.Command.Escape.RoundTrip.{escaped_argument, escaped_arguments, args_text}
use mpd_protocol.Command.Requests.{Tokenizer}

abbrev pub is_letter : ℕ → Bool
is_letter c = (leb b'a' c && leb c b'z') || (leb b'A' c && leb c b'Z')

abbrev pub is_name_char : ℕ → Bool
is_name_char c = is_letter c || c == b'_'

-- Quotes of both kinds, and the backslash.
abbrev pub is_special : ℕ → Bool
is_special c = c == b'"' || c == b'\'' || c == b'\\'

-- A character that can stand outside quotes: no blank, no control character, nothing special.
abbrev pub is_bare : ℕ → Bool
is_bare c = ltb b' ' c && not (is_special c)

-- Between quotes, a backslash takes the next character as it is, and what is not special stands for itself.
pub data Escaped : Str → Str → Type 0 where
  done : Escaped [] []
  itself :
      (c : ℕ) (s t : Str) → 0 < c → is_special c ≡ false → Escaped s t → Escaped (c ∷ s) (c ∷ t)
  behind_backslash : (c : ℕ) (s t : Str) → 0 < c → Escaped s t → Escaped (b'\\' ∷ c ∷ s) (c ∷ t)

-- The spelling of an argument, and the argument.
pub data Spelled : Str → Str → Type 0 where
  bare : (s : Str) → s ≢ [] → AllTest is_bare s → Spelled s s
  quoted : (s t : Str) → Escaped s t → Spelled (b'"' ∷ (s ++ b'"' ∷ [])) t

-- The text behind the name, and the arguments.
pub data SpelledAll : Str → List Str → Type 0 where
  no_more : SpelledAll [] []
  argument :
      (a s rest : Str) (ss : List Str)
      → Spelled a s
      → SpelledAll rest ss
      → SpelledAll (b' ' ∷ (a ++ rest)) (s ∷ ss)

-- What is documented of the server's reader: a line that is spelled like this is read as its words. Nothing
-- is said of any other line.
pub record TokenizerLaws (words : Tokenizer) : Type 0 where
  pub words_lem :
      (c : ℕ) (name text : Str) (ss : List Str)
      → is_letter c ≡ true
      → AllTest is_name_char name
      → SpelledAll text ss
      → words (c ∷ (name ++ text)) ≡ some ((c ∷ name) ∷ ss)

-- The texts that are sent in a documented spelling: those with a blank, which are put between quotes, and
-- those that need no escaping. (Others are escaped without quotes.)
abbrev pub Documented : Str → Type 0
Documented s = ((contains_blank s ≡ true) × All (λ c. 0 < c) s) ⊎ ((s ≢ []) × AllTest is_bare s)

-- The characters that the code escapes.
pub should_escape-is_special : (c : ℕ) → should_escape c ≡ is_special c
unfolding should_escape
should_escape-is_special c = ground arith

pub bare-should_escape :
    (c : ℕ) → is_bare c ≡ true → (should_escape c ≡ false) × ((c == b' ' || c == b'\t') ≡ false)
unfolding should_escape
bare-should_escape c h = (ground arith, ground arith)

escaped_chars-Escaped : (s : Str) → All (λ c. 0 < c) s → Escaped (escaped_chars s) s
escaped_chars-Escaped [] h = done
escaped_chars-Escaped (c ∷ s) (hc, hs) = elim (Bool-cases (should_escape c)) [
  | inl special ↦ rw special (behind_backslash c _ s hc (escaped_chars-Escaped s hs))
  | inr plain ↦
      rw plain
        (itself c _ s hc (sym (should_escape-is_special c) ∙ plain) (escaped_chars-Escaped s hs))
]

bare_kept : (s : Str) → AllTest is_bare s → (escaped_chars s ≡ s) × (contains_blank s ≡ false)
bare_kept [] h = (refl, refl)
bare_kept (c ∷ s) (hc, hs) =
    let (kept, no_blank) = bare_kept s hs in
    let (plain, here) = bare-should_escape c hc in
    (rw plain (ap (λ t. c ∷ t) kept), ground (arith, here, no_blank))

escaped_argument-Spelled : (s : Str) → Documented s → Spelled (escaped_argument s) s
unfolding quoted_form
escaped_argument-Spelled s (inl (blank, hs)) =
    rw (escape-cases s true, blank) (quoted (escaped_chars s) s (escaped_chars-Escaped s hs))
escaped_argument-Spelled s (inr (some_char, all)) =
    let (kept, no_blank) = bare_kept s all in
    rw (escape-cases s true, no_blank, kept) (bare s some_char all)

-- The arguments of a command, as they are sent.
pub args_text-SpelledAll :
    (ss : List Str) → All Documented ss → SpelledAll (args_text (escaped_arguments ss)) ss
args_text-SpelledAll [] h = no_more
args_text-SpelledAll (s ∷ ss) (hs, hss) =
    argument (escaped_argument s) s _ ss (escaped_argument-Spelled s hs)
      (args_text-SpelledAll ss hss)

valid-is_name_char : (s : Str) → AllTest is_valid_command_char s → AllTest is_name_char s
unfolding is_valid_command_char
valid-is_name_char [] h = tt
valid-is_name_char (c ∷ s) (hc, hs) = (ground arith, valid-is_name_char s hs)

abbrev pub begins_with_letter : Str → Bool
begins_with_letter [] = false
begins_with_letter (c ∷ s) = is_letter c

-- A line of valid name and documented arguments is read as these.
pub words-documented :
    {words : Tokenizer} (base : Str) (text : Str) (ss : List Str)
    → TokenizerLaws words
    → begins_with_letter base ≡ true
    → AllTest is_valid_command_char base
    → SpelledAll text ss
    → words (base ++ text) ≡ some (base ∷ ss)
words-documented [] text ss laws letter valid spelled = cc
words-documented (c ∷ name) text ss laws letter (hc, valid) spelled =
    laws.words_lem c name text ss letter (valid-is_name_char name valid) spelled
