-- ===== src/Command/Validation.antt =====
-- What `Command::build` and `Command::add_argument` accept and refuse.
use mpd_protocol.Prelude.{
  ℕ, ◌+◌, ◌≡◌, ◌≢◌, inl, inr, refl, ap, ◌∙◌, Bool, true, false, not, ◌||◌, Option, none, some, [],
  ◌∷◌, ◌++◌, arith, if◌then◌else◌, Bool-cases, length, AllTest,
}
use mpd_protocol.Std.Utf8.{Str, encode_char, as_bytes, len_utf8, len_utf8-cons}
use mpd_protocol.Command.{
  unncessary_whitespace, Outcome, ok, err, is_ascii_whitespace, last_char, find_from,
  validate_no_extra_whitespace, is_valid_command_char, is_command_list_command, build,
}

-- `find_from` finds the first character that passes the test, at the length of the text before it.
pub record FirstAt (p : ℕ → Bool) (s : Str) (offset c : ℕ) : Type 0 where
  pub before : Str
  pub after : Str
  pub splits : s ≡ before ++ c ∷ after
  pub none_before : AllTest (λ d. not (p d)) before
  pub passes : p c ≡ true
  pub is_offset : offset ≡ len_utf8 before

pub find_from-FirstAt :
    (p : ℕ → Bool) (s : Str) (i : ℕ) {j c : ℕ}
    → find_from p i s ≡ some (j, c)
    → (k : ℕ) × (j ≡ i + k) × FirstAt p s k c
find_from-FirstAt p [] i e = cc
find_from-FirstAt p (d ∷ s) i {j} {c} e = elim (Bool-cases (p d)) [
  | inl here ↦
      let found : ◌≡◌ {A = Option (ℕ × ℕ)} (some (i, d)) (some (j, c)) = rw here at e in
      let at : i ≡ j = cc in
      let same : d ≡ c = cc in
      (
        0,
        omega arith,
        rw (← same) (record {
          before = [];
          after = s;
          splits = refl;
          none_before = tt;
          passes = here;
          is_offset = unfold as_bytes in refl;
        }),
      )
  | inr later ↦
      let (k, at, f) = find_from-FirstAt p s (i + length (encode_char d)) (rw later at e) in
      (
        length (encode_char d) + k,
        omega arith,
        record {
          before = d ∷ f.before;
          after = f.after;
          splits = ap (λ t. d ∷ t) f.splits;
          none_before = (rw later refl, f.none_before);
          passes = f.passes;
          is_offset = omega (arith, len_utf8-cons d f.before, f.is_offset);
        },
      )
]

pub find_from-none :
    (p : ℕ → Bool) (s : Str) (i : ℕ) → find_from p i s ≡ none → AllTest (λ d. not (p d)) s
find_from-none p [] i e = tt
find_from-none p (d ∷ s) i e = elim (Bool-cases (p d)) [
  | inl here ↦ cc (rw here at e)
  | inr later ↦ (rw later refl, find_from-none p s (i + length (encode_char d)) (rw later at e))
]

pub find_from_all :
    (p : ℕ → Bool) (s : Str) (i : ℕ) → AllTest (λ d. not (p d)) s → find_from p i s ≡ none
find_from_all p [] i h = refl
find_from_all p (d ∷ s) i (hd, hs) = elim (Bool-cases (p d)) [
  | inl here ↦ cc (rw here at hd)
  | inr later ↦ rw later (find_from_all p s (i + length (encode_char d)) hs)
]

valid_not_blank : (c : ℕ) → is_valid_command_char c ≡ true → is_ascii_whitespace c ≡ false
unfolding is_valid_command_char
valid_not_blank c h = ground arith

pub last_char-cons : (c : ℕ) (s : Str) → (d : ℕ) × (last_char (c ∷ s) ≡ some d)
last_char-cons c [] = (c, refl)
last_char-cons c (d ∷ s) = last_char-cons d s

last_char-AllTest :
    (f : ℕ → Bool) (s : Str) (d : ℕ) → AllTest f s → last_char s ≡ some d → f d ≡ true
last_char-AllTest f [] d h e = cc
last_char-AllTest f (c ∷ []) d h e = let same : c ≡ d = cc in rw (← same) h.0
last_char-AllTest f (c ∷ x ∷ s) d h e = last_char-AllTest f (x ∷ s) d h.1 e

-- The test on both ends, at a text that has a first and a last character.
abbrev pub ends_test : (c d : ℕ) → Outcome (Unit {0})
ends_test c d =
    if is_ascii_whitespace c || is_ascii_whitespace d then err unncessary_whitespace else ok tt

pub validate_ends :
    (c : ℕ) (s : Str) (d : ℕ)
    → last_char (c ∷ s) ≡ some d
    → validate_no_extra_whitespace (c ∷ s) ≡ ends_test c d
unfolding validate_no_extra_whitespace
validate_ends c s d e = rw e (ground arith)

validate_ends_valid :
    (c : ℕ) (s : Str)
    → AllTest is_valid_command_char (c ∷ s)
    → validate_no_extra_whitespace (c ∷ s) ≡ ok tt
validate_ends_valid c s h =
    let (d, e) = last_char-cons c s in
    validate_ends c s d e
    ∙ rw (
      valid_not_blank c h.0,
      valid_not_blank d (last_char-AllTest is_valid_command_char (c ∷ s) d h e),
    )

abbrev pub invalid : ℕ → Bool
invalid d = not (is_valid_command_char d)

pub not-invalid : (s : Str) → AllTest (λ d. not (invalid d)) s → AllTest is_valid_command_char s
not-invalid [] h = tt
not-invalid (c ∷ s) (hc, hs) = (ground arith, not-invalid s hs)

valid_not : (s : Str) → AllTest is_valid_command_char s → AllTest (λ d. not (invalid d)) s
valid_not [] h = tt
valid_not (c ∷ s) (hc, hs) = (rw hc refl, valid_not s hs)

-- `build` accepts a text.
pub build_accepts :
    (s : Str)
    → s ≢ []
    → AllTest is_valid_command_char s
    → is_command_list_command s ≡ false
    → build s ≡ ok (record { base = s; args = [] })
unfolding build
build_accepts [] ne all free = absurd (ne refl)
build_accepts (c ∷ s) ne all free =
    rw (validate_ends_valid c s all)
      (rw (find_from_all invalid (c ∷ s) 0 (valid_not (c ∷ s) all)) (rw free refl))
