-- ===== src/Std/Decimal.antt =====
-- Decimal numerals as a server prints them, and what they spell.
use mpd_protocol.Prelude.{
  ℕ, zero, suc, ◌+◌, ◌-◌, ◌*◌, ◌/◌, ◌%◌, ◌<◌, ◌≡◌, ◌≢◌, refl, ◌∙◌, true, [], ◌∷◌, ◌++◌, arith, ltb,
  if◌then◌else◌, Bool-cases, inl, inr, AllTest, append_ne_nil, Bytes,
}
use mpd_protocol.Std.Number.{is_digit, value_from}

unfoldable pub digits_within : ℕ → ℕ → Bytes
digits_within zero n = []
digits_within (suc fuel) n =
    let higher = digits_within fuel (n / 10) in
    if ltb n 10 then (b'0' + n) ∷ [] else higher ++ (b'0' + n % 10) ∷ []

-- A number has fewer digits than it counts to, and one more.
unfoldable pub decimal : ℕ → Bytes
unfolding digits_within
decimal n = digits_within (suc n) n

pub value_from-append :
    (s : Bytes) (a c : ℕ) → value_from a (s ++ c ∷ []) ≡ value_from a s * 10 + (c - b'0')
value_from-append [] a c = refl
value_from-append (d ∷ s) a c = value_from-append s (a * 10 + (d - b'0')) c

pub digits_append :
    (s : Bytes) (c : ℕ) → AllTest is_digit s → is_digit c ≡ true → AllTest is_digit (s ++ c ∷ [])
digits_append [] c h hc = (hc, tt)
digits_append (d ∷ s) c (hd, hs) hc = (hd, digits_append s c hs hc)

within_lem :
    (fuel n : ℕ)
    → n < fuel
    → (value_from 0 (digits_within fuel n) ≡ n) × AllTest is_digit (digits_within fuel n)
unfolding digits_within
within_lem zero n h = absurd (omega arith)
within_lem (suc fuel) n h = elim (Bool-cases (ltb n 10)) [
  | inl small ↦ rw small (ground arith, (ground arith, tt))
  | inr large ↦
      let tenth : n / 10 < fuel = ground arith in
      let (value, all) = within_lem fuel (n / 10) tenth in
      rw large (
        value_from-append (digits_within fuel (n / 10)) 0 (b'0' + n % 10) ∙ omega (arith, value),
        digits_append (digits_within fuel (n / 10)) (b'0' + n % 10) all (ground arith),
      )
]

pub decimal_lem :
    (n : ℕ) → (decimal n ≢ []) × AllTest is_digit (decimal n) × (value_from 0 (decimal n) ≡ n)
unfolding decimal digits_within
decimal_lem n =
    let (value, all) = within_lem (suc n) n (omega arith) in
    (
      elim (Bool-cases (ltb n 10)) [
        | inl small ↦ rw small (cc)
        | inr large ↦ rw large (append_ne_nil (digits_within n (n / 10)) (b'0' + n % 10) [])
      ],
      all,
      value,
    )
