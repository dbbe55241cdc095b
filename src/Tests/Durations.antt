-- ===== src/Tests/Durations.antt =====
-- A floating-point format that keeps the laws of `Command/Duration`, and a duration written with it.
use mpd_protocol.Prelude.{
  ℕ, zero, suc, ◌+◌, ◌*◌, ◌/◌, ◌%◌, ◌^◌, ◌≡◌, refl, sym, ap, ◌∙◌, subst, append-nil, append_assoc,
  length-append, true, [], ◌∷◌, ◌++◌, arith, AllTest, length, codes,
}
use mpd_protocol.Std.Utf8.{Str}
use mpd_protocol.Std.Number.{is_digit, value_from}
use mpd_protocol.Std.Decimal.{decimal, decimal_lem, digits_append, value_from-append}
use mpd_protocol.Command.{Command, ok, bool_argument, add_argument}
use mpd_protocol.Command.Duration.{
  Duration, FloatOps, nanoseconds, IsFixed, FloatLaws, units, Rounded, Within, duration_argument,
  add_argument-duration,
}

-- The last digits of a number, and what stands before them.
abbrev places : ℕ → ℕ → Str
places zero v = []
places (suc n) v = places n (v / 10) ++ (b'0' + v % 10) ∷ []

abbrev before : ℕ → ℕ → ℕ
before zero v = v
before (suc n) v = before n (v / 10)

places_lem :
    (n v : ℕ)
    → AllTest is_digit (places n v)
      × (length (places n v) ≡ n)
      × (value_from 0 (decimal (before n v) ++ places n v) ≡ v)
places_lem zero v = (tt, refl, ap (value_from 0) (append-nil (decimal v)) ∙ (decimal_lem v).2)
places_lem (suc n) v =
    let (all, size, value) = places_lem n (v / 10) in
    let c = b'0' + v % 10 in
    (
      digits_append (places n (v / 10)) c all (ground arith),
      length-append {0} (places n (v / 10)) (c ∷ []) ∙ omega (arith, size),
      ap (value_from 0)
            (sym (append_assoc (decimal (before n (v / 10))) (places n (v / 10)) (c ∷ [])))
          ∙ value_from-append (decimal (before n (v / 10)) ++ places n (v / 10)) 0 c
          ∙ omega (arith, value),
    )

-- So many nanoseconds in units of 10^-n seconds, rounded, half a unit up.
abbrev rounded : ℕ → Duration → ℕ
rounded n d = (2 * (nanoseconds d * 10 ^ n) + 10 ^ 9) / (2 * 10 ^ 9)

-- A duration as itself.
abbrev pub exact : FloatOps
exact = record {
  Float = Duration;
  as_secs_f64 = λ d. d;
  format_precision = λ n d. decimal (before n (rounded n d)) ++ b'.' ∷ places n (rounded n d);
}

exact-FloatLaws : FloatLaws exact
exact-FloatLaws = record {
  FiniteNonNegative = λ d. Unit {0};
  num = nanoseconds;
  den = λ d. 10 ^ 9;
  den_lem = λ d finite. omega arith;
  as_secs_f64_lem = λ d. (tt, (omega arith, omega arith));
  format_precision_lem = λ n d h finite.
      let v = rounded n d in
      let (some_digit, whole, _) = decimal_lem (before n v) in
      let (all, size, value) = places_lem n v in
      (
        record {
          whole = decimal (before n v);
          fraction = places n v;
          splits = refl;
          some_digit = some_digit;
          whole_digits = whole;
          fraction_digits = all;
          is_places = size;
        },
        subst (λ u. Rounded u (nanoseconds d * 10 ^ n) (10 ^ 9)) (sym value)
            (omega arith, omega arith),
      );
}

abbrev seek : Command
seek = record { base = codes "seekcur"; args = [] }

abbrev moment : Duration
moment = record {
  secs = 100;
  secs_small = omega arith;
  nanos = 250000000;
  nanos_small = omega arith;
}

add_argument-duration_example :
    ((s : Str) × (h : IsFixed 3 s) × Within (units h) 100250000000
      × (add_argument (duration_argument exact) seek moment
          ≡ ok (record { base = codes "seekcur"; args = s ∷ [] })))
    × (add_argument bool_argument seek true
        ≡ ok (record { base = codes "seekcur"; args = codes "1" ∷ [] }))
add_argument-duration_example = add_argument-duration exact seek moment true exact-FloatLaws
