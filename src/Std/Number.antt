-- ===== src/Std/Number.antt =====
-- `str::parse` into `u64` and `usize`, for a target of 64 bits, where both have the same range.
use mpd_protocol.Prelude.{
  ℕ, ◌+◌, ◌-◌, ◌*◌, ◌^◌, ◌≤◌, ◌≡◌, Bool, ◌&&◌, Option, none, some, [], ◌∷◌, arith, leb, ◌==◌,
  if◌then◌else◌, AllTest,
}
use mpd_protocol.Std.Utf8.{Str}

abbrev pub u64_max : ℕ
u64_max = 2 ^ 64 - 1

-- `char::is_ascii_digit`
abbrev pub is_digit : ℕ → Bool
is_digit c = leb b'0' c && leb c b'9'

-- The digits left, each added by `checked_mul` and `checked_add`.
digits : Str → ℕ → Option ℕ
digits [] n = some n
digits (c ∷ s) n =
    let m = n * 10 + (c - b'0') in
    let rest = digits s m in if is_digit c then (if leb m u64_max then rest else none) else none

from_digits : Str → Option ℕ
unfolding digits
from_digits [] = none
from_digits (c ∷ s) = digits (c ∷ s) 0

-- `u64::from_str`: one leading `+` is allowed, and at least one digit is wanted.
unfoldable pub parse_u64 : Str → Option ℕ
unfolding from_digits
parse_u64 [] = none
parse_u64 (c ∷ s) = if c == b'+' then from_digits s else from_digits (c ∷ s)

-- The number that digits spell behind `n`, with no bound.
abbrev pub value_from : ℕ → Str → ℕ
value_from n [] = n
value_from n (c ∷ s) = value_from (n * 10 + (c - b'0')) s

le-value_from : (s : Str) (n : ℕ) → n ≤ value_from n s
le-value_from [] n = omega arith
le-value_from (c ∷ s) n = omega (arith, le-value_from s (n * 10 + (c - b'0')))

digits-value :
    (s : Str) (n : ℕ)
    → AllTest is_digit s
    → n ≤ u64_max
    → digits s n ≡ (if leb (value_from n s) u64_max then some (value_from n s) else none)
unfolding digits
digits-value [] n h b = ground arith
digits-value (c ∷ s) n (hc, hs) b =
    let m = n * 10 + (c - b'0') in ground (arith, digits-value s m hs, le-value_from s m)

-- On digits, at least one, the parser returns the number that they spell if it fits, and fails
-- if it does not.
pub parse_u64-value :
    (c : ℕ) (s : Str)
    → AllTest is_digit (c ∷ s)
    → parse_u64 (c ∷ s)
      ≡ (if leb (value_from 0 (c ∷ s)) u64_max then some (value_from 0 (c ∷ s)) else none)
unfolding parse_u64
parse_u64-value c s h = ground (arith, digits-value (c ∷ s) 0 h)
