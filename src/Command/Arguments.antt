-- ===== src/Command/Arguments.antt =====
-- `Command::add_argument`: which arguments it accepts, and where it panics.
use mpd_protocol.Prelude.{
  ℕ, ◌≡◌, ◌≢◌, ◌⊎◌, ◌↔◌, inl, inr, refl, sym, ap, ◌∙◌, Bool, true, false, not, ◌||◌, Option, none,
  some, [], ◌∷◌, ◌++◌, arith, ◌==◌, Bool-cases, AllTest,
}
use mpd_protocol.Std.Utf8.{Str}
use mpd_protocol.Command.{
  Command, unncessary_whitespace, Outcome, ok, err, panic, ◌>>=◌, find_from, first_char, last_char,
  is_ascii_whitespace, validate_no_extra_whitespace, validate_argument, argument_result,
  escape_argument_internal, Argument, add_argument,
}
use mpd_protocol.Command.Validation.{find_from-none, find_from_all, last_char-cons, validate_ends}
use mpd_protocol.Command.Build.{>>=-eq-ok, ends_total}

-- Neither end of the text is whitespace.
abbrev pub PlainEnds : Str → Type 0
PlainEnds s =
    (c : ℕ) → (first_char s ≡ some c) ⊎ (last_char s ≡ some c) → is_ascii_whitespace c ≡ false

abbrev pub is_newline : ℕ → Bool
is_newline c = c == b'\n'

or_false : (a b : Bool) → (a || b) ≡ false → (a ≡ false) × (b ≡ false)
or_false a b h = ground arith

ends-PlainEnds :
    (c : ℕ) (s : Str) → validate_no_extra_whitespace (c ∷ s) ≡ ok tt → PlainEnds (c ∷ s)
ends-PlainEnds c s e = λ x at.
    let (d, last) = last_char-cons c s in
    elim (Bool-cases (is_ascii_whitespace c || is_ascii_whitespace d)) [
      | inl blank ↦
          let refused : validate_no_extra_whitespace (c ∷ s) ≡ err unncessary_whitespace =
            validate_ends c s d last ∙ rw blank in
          cc (e, refused)
      | inr plain ↦
          let (hc, hd) = or_false (is_ascii_whitespace c) (is_ascii_whitespace d) plain in
          elim at [
            | inl first ↦ let same : c ≡ x = cc in rw (← same) hc
            | inr final ↦ let same : d ≡ x = cc in rw (← same) hd
          ]
    ]

PlainEnds-ends :
    (c : ℕ) (s : Str) → PlainEnds (c ∷ s) → validate_no_extra_whitespace (c ∷ s) ≡ ok tt
PlainEnds-ends c s plain =
    let (d, last) = last_char-cons c s in
    validate_ends c s d last ∙ rw (plain c (inl refl), plain d (inr last))

argument_result-eq-ok :
    (o : Option (ℕ × ℕ)) (s : Str) {checked : Str} → argument_result o s ≡ ok checked → o ≡ none
unfolding argument_result
argument_result-eq-ok none s e = refl
argument_result-eq-ok (some (i, c)) s e = cc

validate_argument-eq-ok :
    (s checked : Str)
    → validate_argument s ≡ ok checked
    → (s ≢ []) × PlainEnds s × AllTest (λ c. not (is_newline c)) s
unfolding validate_argument
validate_argument-eq-ok [] checked e = absurd (cc e)
validate_argument-eq-ok (c ∷ s) checked e =
    let (_, ends, found) = >>=-eq-ok (validate_no_extra_whitespace (c ∷ s)) _ e in
    (
      cc,
      ends-PlainEnds c s ends,
      find_from-none is_newline (c ∷ s) 0
          (argument_result-eq-ok (find_from is_newline 0 (c ∷ s)) (c ∷ s) found),
    )

validate_argument_accepts :
    (s : Str)
    → s ≢ []
    → PlainEnds s
    → AllTest (λ c. not (is_newline c)) s
    → validate_argument s ≡ ok s
unfolding validate_argument
validate_argument_accepts [] ne plain all = absurd (ne refl)
validate_argument_accepts (c ∷ s) ne plain all =
    rw (PlainEnds-ends c s plain) (rw (find_from_all is_newline (c ∷ s) 0 all))

argument_result_total : (o : Option (ℕ × ℕ)) (s : Str) → argument_result o s ≢ panic
unfolding argument_result
argument_result_total none s = cc
argument_result_total (some (i, c)) s = cc

-- The check panics exactly on the empty text.
validate_argument_panics : (s : Str) → (validate_argument s ≡ panic) ↔ (s ≡ [])
unfolding validate_argument
validate_argument_panics [] = (λ _. refl, λ _. refl)
validate_argument_panics (c ∷ s) = elim (ends_total c s) [
  | inl plain ↦ (
    λ e. absurd (argument_result_total (find_from is_newline 0 (c ∷ s)) (c ∷ s) (rw plain at e)),
    λ e. cc,
  )
  | inr blank ↦ (λ e. cc (rw blank at e), λ e. cc)
]

module _ {A : Type 0} (a : Argument A) (command : Command) (value : A) where
  -- The command with the argument behind the others, escaped and, where it is needed, quoted.
  abbrev pub with_argument : Command
  with_argument = record command {
    args = command.args ++ escape_argument_internal (a.render value) true ∷ [];
  }

  -- `add_argument` accepts exactly the arguments whose text is not empty, has no whitespace at
  -- either end and holds no newline; the command gets the escaped text as its last argument.
  pub add_argument-eq-ok_iff :
      (command' : Command)
      → (add_argument a command value ≡ ok command') ↔ (
          (a.render value ≢ [])
          × PlainEnds (a.render value)
          × AllTest (λ c. not (is_newline c)) (a.render value)
          × (command' ≡ with_argument))
  unfolding add_argument
  add_argument-eq-ok_iff command' = (
    λ e.
        let (checked, valid, made) = >>=-eq-ok (validate_argument (a.render value)) _ e in
        let (ne, plain, all) = validate_argument-eq-ok (a.render value) checked valid in
        (ne, plain, all, cc made),
    λ (ne, plain, all, made).
        rw (validate_argument_accepts (a.render value) ne plain all) (ap ok (sym made)),
  )

  bind_panics : (m : Outcome Str) (made : Command) → ((m >>= λ _. ok made) ≡ panic) ↔ (m ≡ panic)
  bind_panics (ok s) made = (λ e. cc, λ e. cc)
  bind_panics (err x) made = (λ e. cc, λ e. cc)
  bind_panics panic made = (λ e. refl, λ e. refl)

  -- `add_argument` panics exactly when the argument's text is empty; every other argument is
  -- accepted or refused with an error.
  pub add_argument_panics_iff : (add_argument a command value ≡ panic) ↔ (a.render value ≡ [])
  unfolding add_argument
  add_argument_panics_iff =
      let outer = bind_panics (validate_argument (a.render value)) with_argument in
      let inner = validate_argument_panics (a.render value) in
      (λ e. inner.0 (outer.0 e), λ e. outer.1 (inner.1 e))
