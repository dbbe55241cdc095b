-- ===== src/Tests/Words.antt =====
-- A reader of words that does what the protocol documents.
use mpd_protocol.Prelude.{
  ◌≡◌, refl, sym, ap, ◌∙◌, true, false, some, List, [], ◌∷◌, ◌++◌, append_assoc, append-nil, arith,
  AllTest,
}
use mpd_protocol.Std.Utf8.{Str}
use mpd_protocol.Command.Escape.Scanner.{
  scan, words, scan_plain, scan_backslash, scan_blank, scan_end, and_word,
}
use mpd_protocol.Command.Requests.Spelling.{
  is_name_char, is_bare, should_escape-is_special, bare-should_escape, Escaped, done, itself,
  behind_backslash, Spelled, bare, quoted, SpelledAll, no_more, argument, TokenizerLaws,
}

name-is_bare : (s : Str) → AllTest is_name_char s → AllTest is_bare s
name-is_bare [] h = tt
name-is_bare (c ∷ s) (hc, hs) = (ground arith, name-is_bare s hs)

scan_bare :
    (word s rest : Str)
    → AllTest is_bare s
    → scan false false word (s ++ rest) ≡ scan false false (word ++ s) rest
scan_bare word [] rest h = ap (λ w. scan false false w rest) (sym (append-nil word))
scan_bare word (c ∷ s) rest (hc, hs) =
    let (plain, joined) = bare-should_escape c hc in
    scan_plain false word c (s ++ rest) plain (rw joined refl)
    ∙ scan_bare (word ++ c ∷ []) s rest hs
    ∙ ap (λ w. scan false false w rest) (append_assoc word (c ∷ []) s)

scan-Escaped :
    (word body s rest : Str)
    → Escaped body s
    → scan true false word (body ++ b'"' ∷ rest) ≡ scan false false (word ++ s) rest
unfolding scan
scan-Escaped word _ _ rest done = ap (λ w. scan false false w rest) (sym (append-nil word))
scan-Escaped word _ _ rest (itself c body s some_char plain h) =
    scan_plain true word c (body ++ b'"' ∷ rest) (should_escape-is_special c ∙ plain) (ground arith)
    ∙ scan-Escaped (word ++ c ∷ []) body s rest h
    ∙ ap (λ w. scan false false w rest) (append_assoc word (c ∷ []) s)
scan-Escaped word _ _ rest (behind_backslash c body s some_char h) =
    scan_backslash true word c (body ++ b'"' ∷ rest)
    ∙ scan-Escaped (word ++ c ∷ []) body s rest h
    ∙ ap (λ w. scan false false w rest) (append_assoc word (c ∷ []) s)

scan-Spelled :
    (a s rest : Str) → Spelled a s → scan false false [] (a ++ rest) ≡ scan false false s rest
unfolding scan
scan-Spelled _ _ rest (bare s some_char all) = scan_bare [] s rest all
scan-Spelled _ _ rest (quoted body s h) =
    ap (λ t. scan true false [] t) (append_assoc body (b'"' ∷ []) rest)
    ∙ scan-Escaped [] body s rest h

scan-SpelledAll :
    (word text : Str) (ss : List Str)
    → SpelledAll text ss
    → scan false false word text ≡ some (word ∷ ss)
scan-SpelledAll word _ _ no_more = scan_end word
scan-SpelledAll word _ _ (argument a s rest ss h hs) =
    scan_blank word (a ++ rest)
    ∙ ap (and_word word) (scan-Spelled a s rest h ∙ scan-SpelledAll s rest ss hs)

pub words-TokenizerLaws : TokenizerLaws words
unfolding words
words-TokenizerLaws = record {
  words_lem = λ c name text ss letter named spelled.
      let all : AllTest is_bare (c ∷ name) = name-is_bare (c ∷ name) (ground arith, named) in
      scan_bare [] (c ∷ name) text all ∙ scan-SpelledAll (c ∷ name) text ss spelled;
}
