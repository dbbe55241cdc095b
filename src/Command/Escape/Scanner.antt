-- ===== src/Command/Escape/Scanner.antt =====
-- A reader of command lines that is independent of the code: words stand between blanks, a
-- backslash takes the next character as it is, and blanks between double quotes belong to the word.
use mpd_protocol.Prelude.{
  ℕ, ◌≡◌, inl, inr, refl, sym, ap, ◌∙◌, Bool, true, false, not, ◌&&◌, ◌||◌, Option, none, some,
  List, [], ◌∷◌, ◌++◌, append_assoc, append-nil, arith, ◌==◌, if◌then◌else◌, Bool-cases, AllTest,
}
use mpd_protocol.Std.Utf8.{Str}
use mpd_protocol.Command.{should_escape, contains_blank, is_valid_command_char}
use mpd_protocol.Command.Escape.{escaped_chars, quoted_form}

abbrev pub is_blank : ℕ → Bool
is_blank c = c == b' ' || c == b'\t'

-- A finished word before the others.
abbrev pub and_word : Str → Option (List Str) → Option (List Str)
and_word word none = none
and_word word (some ws) = some (word ∷ ws)

-- Whether the reader is between quotes, whether it is behind a backslash, and the word so far.
unfoldable pub scan : (quoted escape : Bool) → Str → Str → Option (List Str)
scan false false word [] = some (word ∷ [])
scan _ _ _ [] = none
scan quoted true word (c ∷ s) = scan quoted false (word ++ c ∷ []) s
scan quoted false word (c ∷ s) =
    let behind_backslash = scan quoted true word s in
    let behind_quote = scan (not quoted) false word s in
    let behind_blank = scan quoted false [] s in
    let behind_char = scan quoted false (word ++ c ∷ []) s in
    if c == b'\\'
    then behind_backslash
    else if c == b'"'
    then behind_quote
    else if is_blank c && not quoted
    then and_word word behind_blank
    else behind_char

unfoldable pub words : Str → Option (List Str)
unfolding scan
words = scan false false []

-- A character that means nothing to the reader joins the word.
pub scan_plain :
    (quoted : Bool) (word : Str) (c : ℕ) (s : Str)
    → should_escape c ≡ false
    → (is_blank c && not quoted) ≡ false
    → scan quoted false word (c ∷ s) ≡ scan quoted false (word ++ c ∷ []) s
unfolding scan should_escape
scan_plain quoted word c s plain joined = ground arith

pub scan_backslash :
    (quoted : Bool) (word : Str) (c : ℕ) (s : Str)
    → scan quoted false word (b'\\' ∷ c ∷ s) ≡ scan quoted false (word ++ c ∷ []) s
unfolding scan
scan_backslash true word c s = refl
scan_backslash false word c s = refl

-- No blank of the text ends the word.
abbrev pub Whole : Bool → Str → Type 0
Whole quoted s = (contains_blank s && not quoted) ≡ false

Whole-head :
    (quoted : Bool) (c : ℕ) (s : Str)
    → Whole quoted (c ∷ s)
    → ((is_blank c && not quoted) ≡ false) × Whole quoted s
Whole-head quoted c s h = ground arith

-- The reader takes an escaped text as the text.
pub scan-escaped_chars :
    (quoted : Bool) (word s rest : Str)
    → Whole quoted s
    → scan quoted false word (escaped_chars s ++ rest) ≡ scan quoted false (word ++ s) rest
scan-escaped_chars quoted word [] rest h =
    ap (λ w. scan quoted false w rest) (sym (append-nil word))
scan-escaped_chars quoted word (c ∷ s) rest h =
    let (hc, hs) = Whole-head quoted c s h in
    elim (Bool-cases (should_escape c)) [
      | inl special ↦
          rw special (scan_backslash quoted word c (escaped_chars s ++ rest))
          ∙ scan-escaped_chars quoted (word ++ c ∷ []) s rest hs
          ∙ ap (λ w. scan quoted false w rest) (append_assoc word (c ∷ []) s)
      | inr plain ↦
          rw plain (scan_plain quoted word c (escaped_chars s ++ rest) plain hc)
          ∙ scan-escaped_chars quoted (word ++ c ∷ []) s rest hs
          ∙ ap (λ w. scan quoted false w rest) (append_assoc word (c ∷ []) s)
    ]

-- It takes a quoted text, blanks included, as the text.
pub scan-quoted_form :
    (s rest : Str) → scan false false [] (quoted_form s ++ rest) ≡ scan false false s rest
unfolding scan quoted_form
scan-quoted_form s rest =
    ap (λ t. scan true false [] t) (append_assoc (escaped_chars s) (b'"' ∷ []) rest)
    ∙ scan-escaped_chars true [] s (b'"' ∷ rest) (ground arith)

valid_plain :
    (c : ℕ) → is_valid_command_char c ≡ true → (should_escape c ≡ false) × (is_blank c ≡ false)
unfolding is_valid_command_char should_escape
valid_plain c h = ground arith

-- The name of a command is one word.
scan_name :
    (word s rest : Str)
    → AllTest is_valid_command_char s
    → scan false false word (s ++ rest) ≡ scan false false (word ++ s) rest
scan_name word [] rest h = ap (λ w. scan false false w rest) (sym (append-nil word))
scan_name word (c ∷ s) rest (hc, hs) =
    let (plain, joined) = valid_plain c hc in
    scan_plain false word c (s ++ rest) plain (rw joined refl)
    ∙ scan_name (word ++ c ∷ []) s rest hs
    ∙ ap (λ w. scan false false w rest) (append_assoc word (c ∷ []) s)

pub scan_end : (word : Str) → scan false false word [] ≡ some (word ∷ [])
unfolding scan
scan_end word = refl

pub scan_blank :
    (word s : Str) → scan false false word (b' ' ∷ s) ≡ and_word word (scan false false [] s)
unfolding scan
scan_blank word s = refl

pub words_name :
    (s rest : Str) → AllTest is_valid_command_char s → words (s ++ rest) ≡ scan false false s rest
unfolding words
words_name s rest h = scan_name [] s rest h
