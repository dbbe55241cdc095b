-- ===== src/Command/Duration.antt =====
-- `Argument` for `Duration` (src/command.rs), and the arguments that are written as they are rendered.
use mpd_protocol.Prelude.{
  ℕ, suc, ◌+◌, ◌*◌, ◌^◌, ◌≤◌, ◌<◌, ◌≡◌, ◌≢◌, inl, inr, refl, sym, ap, Bool, true, false, not, ◌&&◌,
  leb, Bool-cases, some, [], ◌∷◌, ◌++◌, arith, if◌then◌else◌, AllTest, All-append, length,
  append_ne_nil, codes,
}
use native.Mathlib.Nat.{mul-le-mul_left}
use mpd_protocol.Std.Utf8.{Str}
use mpd_protocol.Std.Number.{is_digit, value_from}
use mpd_protocol.Command.{
  Command, ok, first_char, last_char, is_ascii_whitespace, should_escape, contains_blank,
  escape_count, escape_argument_internal, Argument, bool_render, bool_argument, add_argument,
}
use mpd_protocol.Command.Arguments.{PlainEnds, is_newline, add_argument-eq-ok_iff}

-- `std::time::Duration`: seconds, a `u64`, and less than 10^9 nanoseconds.
pub record Duration : Type 0 where
  pub secs : ℕ
  pub secs_small : secs < 2 ^ 64
  pub nanos : ℕ
  pub nanos_small : nanos < 10 ^ 9

abbrev pub nanoseconds : Duration → ℕ
nanoseconds d = d.secs * 10 ^ 9 + d.nanos

-- What is used of floating-point numbers: `Duration::as_secs_f64`, and `format!` with a precision.
pub record FloatOps : Type 1 where
  pub Float : Type 0
  pub as_secs_f64 : Duration → Float
  pub format_precision : ℕ → Float → Str

-- A number in decimal, with so many digits behind the point.
pub record IsFixed (places : ℕ) (s : Str) : Type 0 where
  pub whole : Str
  pub fraction : Str
  pub splits : s ≡ whole ++ b'.' ∷ fraction
  pub some_digit : whole ≢ []
  pub whole_digits : AllTest is_digit whole
  pub fraction_digits : AllTest is_digit fraction
  pub is_places : length fraction ≡ places

-- The number that is written, in units of its last digit.
abbrev pub units : {places : ℕ} {s : Str} → IsFixed places s → ℕ
units h = value_from 0 (h.whole ++ h.fraction)

-- `v` is the fraction `m / d`, rounded to a nearest whole number.
abbrev pub Rounded : (v m d : ℕ) → Type 0
Rounded v m d = (2 * m ≤ 2 * v * d + d) × (2 * v * d ≤ 2 * m + d)

-- `num / den` seconds are so many nanoseconds, with an error of at most one part in 2^50.
abbrev pub Nearly : (num den nanos : ℕ) → Type 0
Nearly num den nanos =
    (nanos * den * 2 ^ 50 ≤ num * 10 ^ 9 * 2 ^ 50 + nanos * den)
    × (num * 10 ^ 9 * 2 ^ 50 ≤ nanos * den * 2 ^ 50 + nanos * den)

-- Finite numbers that are not negative are fractions. A duration is one, nearly of its value, since the
-- seconds, the quotient of the nanoseconds and the sum are each rounded to 53 bits; and such a number is written in digits alone, rounded to
-- a nearest number with so many of them behind the point.
pub record FloatLaws (f : FloatOps) : Type 1 where
  pub FiniteNonNegative : f.Float → Type 0
  pub num : f.Float → ℕ
  pub den : f.Float → ℕ
  pub den_lem : (x : f.Float) → FiniteNonNegative x → 0 < den x
  pub as_secs_f64_lem :
      (d : Duration)
      → FiniteNonNegative (f.as_secs_f64 d)
        × Nearly (num (f.as_secs_f64 d)) (den (f.as_secs_f64 d)) (nanoseconds d)
  pub format_precision_lem :
      (n : ℕ) (x : f.Float)
      → 1 ≤ n
      → FiniteNonNegative x
      → (h : IsFixed n (f.format_precision n x)) × Rounded (units h) (num x * 10 ^ n) (den x)

unfoldable pub duration_render : FloatOps → Duration → Str
duration_render f d = f.format_precision 3 (f.as_secs_f64 d)

abbrev pub duration_argument : FloatOps → Argument Duration
duration_argument f = record { render = duration_render f }

-- Neither whitespace nor a character that is escaped.
abbrev pub is_plain : ℕ → Bool
is_plain c = not (is_ascii_whitespace c) && not (should_escape c)

plain_free : (s : Str) → AllTest is_plain s → (escape_count s ≡ 0) × (contains_blank s ≡ false)
unfolding escape_count
plain_free [] all = (refl, refl)
plain_free (c ∷ s) (hc, hs) =
    let (counted, blank) = plain_free s hs in
    let kept : should_escape c ≡ false = ground (arith, hc) in
    (rw (kept, counted) refl, ground (arith, hc, blank))

plain_kept : (s : Str) → AllTest is_plain s → escape_argument_internal s true ≡ s
unfolding escape_argument_internal
plain_kept s all = let (counted, blank) = plain_free s all in rw (counted, blank) refl

plain-first_char :
    (s : Str) (c : ℕ) → AllTest is_plain s → first_char s ≡ some c → is_ascii_whitespace c ≡ false
plain-first_char [] c all e = cc
plain-first_char (d ∷ s) c (hd, hs) e = let same : d ≡ c = cc in rw (← same) (ground (arith, hd))

plain-last_char :
    (s : Str) (c : ℕ) → AllTest is_plain s → last_char s ≡ some c → is_ascii_whitespace c ≡ false
plain-last_char [] c all e = cc
plain-last_char (d ∷ []) c (hd, hs) e = let same : d ≡ c = cc in rw (← same) (ground (arith, hd))
plain-last_char (d ∷ x ∷ s) c (hd, hs) e = plain-last_char (x ∷ s) c hs e

plain-PlainEnds : (s : Str) → AllTest is_plain s → PlainEnds s
plain-PlainEnds s all c (inl first) = plain-first_char s c all first
plain-PlainEnds s all c (inr last) = plain-last_char s c all last

plain_lines : (s : Str) → AllTest is_plain s → AllTest (λ c. not (is_newline c)) s
plain_lines [] all = tt
plain_lines (c ∷ s) (hc, hs) = (ground (arith, hc), plain_lines s hs)

-- An argument of plain characters is accepted and written as it is.
add_argument-plain :
    {A : Type 0} (a : Argument A) (command : Command) (value : A)
    → a.render value ≢ []
    → AllTest is_plain (a.render value)
    → add_argument a command value
      ≡ ok (record command { args = command.args ++ a.render value ∷ [] })
add_argument-plain a command value ne all = (add_argument-eq-ok_iff a command value _).1 (
  ne,
  plain-PlainEnds (a.render value) all,
  plain_lines (a.render value) all,
  ap (λ s. record command { args = command.args ++ s ∷ [] })
      (sym (plain_kept (a.render value) all)),
)

digits_plain : (s : Str) → AllTest is_digit s → AllTest is_plain s
unfolding should_escape
digits_plain [] all = tt
digits_plain (c ∷ s) (hc, hs) = (ground (arith, hc), digits_plain s hs)

fixed_plain : (n : ℕ) (s : Str) → IsFixed n s → (s ≢ []) × AllTest is_plain s
unfolding should_escape
fixed_plain n s fixed = rw fixed.splits (
  append_ne_nil fixed.whole b'.' fixed.fraction,
  All-append (λ c. is_plain c ≡ true) fixed.whole (b'.' ∷ fixed.fraction)
      (digits_plain fixed.whole fixed.whole_digits)
      (refl, digits_plain fixed.fraction fixed.fraction_digits),
)

-- So many milliseconds are so many nanoseconds, but for half a millisecond and one part in 2^50.
abbrev pub Within : (millis nanos : ℕ) → Type 0
Within millis nanos =
    (nanos * 2 ^ 50 ≤ (millis * 10 ^ 6 + 500000) * 2 ^ 50 + nanos)
    × (millis * 10 ^ 6 * 2 ^ 50 ≤ (nanos + 500000) * 2 ^ 50 + nanos)

mul_le_cancel : (d a b : ℕ) → 0 < d → a * d ≤ b * d → a ≤ b
mul_le_cancel d a b pos h = elim (Bool-cases (leb a b)) [
  | inl le ↦ ground arith
  | inr gt ↦
      let lt : suc b ≤ a = ground arith in
      let more : d * suc b ≤ d * a = mul-le-mul_left d lt in absurd (omega (arith, pos, h, more))
]

Rounded-Within :
    (v num den nanos : ℕ)
    → 0 < den
    → Nearly num den nanos
    → Rounded v (num * 10 ^ 3) den
    → Within v nanos
Rounded-Within v num den nanos pos near rounded = (
  mul_le_cancel den _ _ pos (omega (arith, near, rounded)),
  mul_le_cancel den _ _ pos (omega (arith, near, rounded)),
)

-- A duration is always accepted, and written as seconds with three digits behind a point, without
-- quotes and escapes; the number that is written is the duration rounded to milliseconds: half a
-- millisecond away from it at most, but for one part in 2^50 of the duration, which is what
-- floating-point numbers of 53 bits may lose. Booleans are always accepted too, and written as `1`
-- and `0`. No panic and no error comes from these arguments.
pub add_argument-duration :
    (f : FloatOps) (command : Command) (d : Duration) (b : Bool)
    → FloatLaws f
    → ((s : Str) × (h : IsFixed 3 s) × Within (units h) (nanoseconds d)
        × (add_argument (duration_argument f) command d
            ≡ ok (record command { args = command.args ++ s ∷ [] })))
      × (add_argument bool_argument command b
          ≡ ok
              (record command { args = command.args ++ (if b then codes "1" else codes "0") ∷ [] }))
unfolding duration_render bool_render should_escape
add_argument-duration f command d b laws =
    let x = f.as_secs_f64 d in
    let (finite, near) = laws.as_secs_f64_lem d in
    let (fixed, rounded) = laws.format_precision_lem 3 x (omega arith) finite in
    let (some_text, all) = fixed_plain 3 _ fixed in
    (
      (
        duration_render f d,
        fixed,
        Rounded-Within (units fixed) (laws.num x) (laws.den x) (nanoseconds d)
            (laws.den_lem x finite) near rounded,
        add_argument-plain (duration_argument f) command d some_text all,
      ),
      by_value b,
    )
  where
    by_value :
        (b : Bool)
        → add_argument bool_argument command b
          ≡ ok (record command { args = command.args ++ (if b then codes "1" else codes "0") ∷ [] })
    by_value true =
        let some_text : codes "1" ≢ [] = cc in
        add_argument-plain bool_argument command true some_text (refl, tt)
    by_value false =
        let some_text : codes "0" ≢ [] = cc in
        add_argument-plain bool_argument command false some_text (refl, tt)
