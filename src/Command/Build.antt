-- ===== src/Command/Build.antt =====
-- `Command::build` in full: which texts it accepts, the error that it returns for the others, and
-- that it returns.
use mpd_protocol.Prelude.{
  ℕ, ◌≡◌, ◌≢◌, ◌⊎◌, ◌↔◌, inl, inr, refl, sym, ap, ◌∙◌, false, ◌||◌, Option, none, some, [], ◌∷◌,
  arith, Bool-cases, AllTest,
}
use mpd_protocol.Std.Utf8.{Str}
use mpd_protocol.Command.{
  Command, CommandError, invalid_character, unncessary_whitespace, Outcome, ok, err, panic, ◌>>=◌,
  find_from, is_valid_command_char, is_command_list_command, is_ascii_whitespace, check_chars,
  validate_command_part, validate_no_extra_whitespace, build,
}
use mpd_protocol.Command.Validation.{
  FirstAt, find_from-FirstAt, find_from-none, last_char-cons, validate_ends, invalid, not-invalid,
  build_accepts,
}

pub >>=-eq-ok :
    {A B : Type 0} (m : Outcome A) (k : A → Outcome B) {result : B}
    → (m >>= k) ≡ ok result
    → (value : A) × (m ≡ ok value) × (k value ≡ ok result)
>>=-eq-ok panic k h = cc
>>=-eq-ok (err why) k h = cc
>>=-eq-ok (ok value) k h = (value, refl, h)

pub >>=-eq-err :
    {A B : Type 0} (m : Outcome A) (k : A → Outcome B) {why : CommandError}
    → (m >>= k) ≡ err why
    → (m ≡ err why) ⊎ ((value : A) × (m ≡ ok value) × (k value ≡ err why))
>>=-eq-err panic k h = cc
>>=-eq-err (err reason) k h = inl cc
>>=-eq-err (ok value) k h = inr (value, refl, h)

check_chars-eq-ok :
    (o : Option (ℕ × ℕ)) (s : Str)
    → check_chars o s ≡ ok tt
    → (o ≡ none) × (is_command_list_command s ≡ false)
unfolding check_chars
check_chars-eq-ok (some (i, c)) s e = cc
check_chars-eq-ok none s e = (refl, ground arith)

check_chars-eq-err :
    (o : Option (ℕ × ℕ)) (s : Str) {i c : ℕ}
    → check_chars o s ≡ err (invalid_character i c)
    → o ≡ some (i, c)
unfolding check_chars
check_chars-eq-err (some (i, c)) s e = cc
check_chars-eq-err none s e = ground arith

-- What acceptance by the check means.
record Accepted (s : Str) : Type 0 where
  not_empty : s ≢ []
  all_valid : AllTest is_valid_command_char s
  free : is_command_list_command s ≡ false

validate-Accepted : (s : Str) → validate_command_part s ≡ ok tt → Accepted s
unfolding validate_command_part
validate-Accepted [] e = cc
validate-Accepted (c ∷ s) e =
    let (_, ends, checked) = >>=-eq-ok (validate_no_extra_whitespace (c ∷ s)) _ e in
    let (found, free) = check_chars-eq-ok (find_from invalid 0 (c ∷ s)) (c ∷ s) checked in
    record {
      not_empty = cc;
      all_valid = not-invalid (c ∷ s) (find_from-none invalid (c ∷ s) 0 found);
      free = free;
    }

-- `build` accepts exactly the texts that are not empty, hold only letters and underscores and do
-- not begin with `command_list`; the command has the text as its base and no arguments.
pub build-eq-ok_iff :
    (s : Str) (command : Command)
    → (build s ≡ ok command) ↔ (
        (s ≢ [])
        × AllTest is_valid_command_char s
        × (is_command_list_command s ≡ false)
        × (command ≡ record { base = s; args = [] }))
unfolding build
build-eq-ok_iff s command = (
  λ e.
      let (_, valid, made) = >>=-eq-ok (validate_command_part s) _ e in
      let a = validate-Accepted s valid in (a.not_empty, a.all_valid, a.free, cc made),
  λ (ne, all, free, made). build_accepts s ne all free ∙ ap ok (sym made),
)

pub ends_total :
    (c : ℕ) (s : Str)
    → (validate_no_extra_whitespace (c ∷ s) ≡ ok tt)
      ⊎ (validate_no_extra_whitespace (c ∷ s) ≡ err unncessary_whitespace)
ends_total c s =
    let (d, e) = last_char-cons c s in
    elim (Bool-cases (is_ascii_whitespace c || is_ascii_whitespace d)) [
      | inl blank ↦ inr (validate_ends c s d e ∙ rw blank)
      | inr plain ↦ inl (validate_ends c s d e ∙ rw plain)
    ]

check_chars_total : (o : Option (ℕ × ℕ)) (s : Str) → check_chars o s ≢ panic
unfolding check_chars
check_chars_total (some (i, c)) s = cc
check_chars_total none s = ground arith

pub then_total :
    (m : Outcome (Unit {0})) (k : Outcome Command) → m ≢ panic → k ≢ panic → (m >>= λ _. k) ≢ panic
then_total (ok a) k hm hk = hk
then_total (err e) k hm hk = cc
then_total panic k hm hk = absurd (hm refl)

validate_total : (s : Str) → validate_command_part s ≢ panic
unfolding validate_command_part
validate_total [] = cc
validate_total (c ∷ s) = elim (ends_total c s) [
  | inl plain ↦ rw plain (check_chars_total (find_from invalid 0 (c ∷ s)) (c ∷ s))
  | inr blank ↦ rw blank (cc)
]

validate_invalid :
    (s : Str) {i c : ℕ}
    → validate_command_part s ≡ err (invalid_character i c)
    → find_from invalid 0 s ≡ some (i, c)
unfolding validate_command_part
validate_invalid [] e = cc
validate_invalid (d ∷ s) e = elim (ends_total d s) [
  | inl plain ↦ check_chars-eq-err (find_from invalid 0 (d ∷ s)) (d ∷ s) (rw plain at e)
  | inr blank ↦ cc (rw blank at e)
]

-- `build` returns on every text: it never panics. When it reports an invalid character, that is the
-- first character of the text that is neither a letter nor an underscore, and the position is the
-- number of bytes before it.
pub build_errors :
    (s : Str)
    → (build s ≢ panic)
      × ((i c : ℕ) → build s ≡ err (invalid_character i c) → FirstAt invalid s i c)
unfolding build
build_errors s = (
  then_total (validate_command_part s) (ok (record { base = s; args = [] })) (validate_total s) cc,
  λ i c e. first_invalid i c (>>=-eq-err (validate_command_part s) _ e),
)
  where
    first_invalid :
        (i c : ℕ)
        → (validate_command_part s ≡ err (invalid_character i c))
          ⊎ ((a : Unit {0}) × (validate_command_part s ≡ ok a)
              × (◌≡◌ {A = Outcome Command}
                  (ok (record { base = s; args = [] }))
                  (err (invalid_character i c))))
        → FirstAt invalid s i c
    first_invalid i c (inl refused) =
        let (k, at, f) = find_from-FirstAt invalid s 0 (validate_invalid s refused) in
        rw (let same : i ≡ k = omega arith in same) f
    first_invalid i c (inr (a, valid, made)) = cc made
