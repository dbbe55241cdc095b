-- ===== src/Parser/Inversion.antt =====
-- What a successful parse of each reference combinator says of its input.
use mpd_protocol.Prelude.{
  ℕ, zero, suc, ◌<◌, ◌≡◌, ◌≢◌, ◌⊎◌, inl, inr, refl, sym, ap, subst, Bool, Option, none, some, [],
  ◌∷◌, ◌++◌, arith, ◌==◌, Bool-cases, length, All, AllTest, Bytes,
}
use mpd_protocol.Std.Utf8.{Str, from_utf8, from_utf8_ascii}
use mpd_protocol.Std.Number.{is_digit, parse_u64, parse_u64-value}
use mpd_protocol.Nom.Laws.{
  IResult, done, incomplete, error, failure, Parser, and_then, accept, optional, or_else,
  unrecoverable,
}
use mpd_protocol.Nom.Reference.{behind, nom, tag, take, take_while, take_while1, char}
use mpd_protocol.Parser.{number}
use mpd_protocol.Parser.Wire.{IsNumeral}

module _ {ℓ κ} {A : Type ℓ} {B : Type κ} where
  pub and_then-eq-done :
      (r : IResult A) (k : A → Parser B) {j : Bytes} {b : B}
      → and_then r k ≡ done j b
      → (i : Bytes) × (a : A) × (r ≡ done i a) × (k a i ≡ done j b)
  and_then-eq-done (done i a) k h = (i, a, refl, h)
  and_then-eq-done incomplete k h = cc
  and_then-eq-done error k h = cc
  and_then-eq-done failure k h = cc

module _ {ℓ} {A : Type ℓ} where
  pub accept-eq-done :
      (o : Option A) (r : Bytes) {j : Bytes} {b : A}
      → accept o r ≡ done j b
      → (o ≡ some b) × (r ≡ j)
  accept-eq-done none r h = cc
  accept-eq-done (some a) r h = (cc, cc)

behind-eq-done :
    (c : ℕ) (r : IResult Bytes) {j t : Bytes}
    → behind c r ≡ done j t
    → (s : Bytes) × (r ≡ done j s) × (t ≡ c ∷ s)
behind-eq-done c (done i a) h = (a, cc, cc)
behind-eq-done c incomplete h = cc
behind-eq-done c error h = cc
behind-eq-done c failure h = cc

pub tag-eq-done : (t i : Bytes) {r a : Bytes} → tag t i ≡ done r a → i ≡ t ++ r
unfolding tag
tag-eq-done [] i h = cc
tag-eq-done (c ∷ t) [] h = cc
tag-eq-done (c ∷ t) (d ∷ i) h = elim (Bool-cases (c == d)) [
  | inl same ↦
      let (s, e, _) = behind-eq-done c (tag t i) (rw same at h) in
      rw (tag-eq-done t i e) (ground arith)
  | inr other ↦ cc (rw other at h)
]

pub char-eq-done : (c : ℕ) (i : Bytes) {r : Bytes} {a : ℕ} → char c i ≡ done r a → i ≡ c ∷ r
unfolding char
char-eq-done c [] h = cc
char-eq-done c (d ∷ i) h = ground arith

pub take-eq-done :
    (k : ℕ) (i : Bytes) {r a : Bytes} → take k i ≡ done r a → (i ≡ a ++ r) × (length a ≡ k)
unfolding take
take-eq-done zero i h = ground arith
take-eq-done (suc k) [] h = cc
take-eq-done (suc k) (c ∷ i) h =
    let (s, e, e') = behind-eq-done c (take k i) h in
    let (f, g) = take-eq-done k i e in (rw e' (rw (← f)), rw e' (ap suc g))

module _ (f : ℕ → Bool) where
  stopped : {i r a : Bytes} → done i [] ≡ done r a → (i ≡ a ++ r) × AllTest f a
  stopped {i} {r} {a} h =
      let none_read : [] ≡ a = cc in
      let same : i ≡ r = cc in subst (λ b. (i ≡ b ++ r) × AllTest f b) none_read (same, tt)

  pub take_while-eq-done :
      (i : Bytes) {r a : Bytes} → take_while f i ≡ done r a → (i ≡ a ++ r) × AllTest f a
  unfolding take_while
  take_while-eq-done [] h = cc
  take_while-eq-done (c ∷ i) h = elim (Bool-cases (f c)) [
    | inl pass ↦
        let (s, e, e') = behind-eq-done c (take_while f i) (rw pass at h) in
        let (g, all) = take_while-eq-done i e in (rw e' (rw (← g)), rw e' (pass, all))
    | inr fail ↦ stopped (rw fail at h)
  ]

  pub take_while1-eq-done :
      (i : Bytes) {r a : Bytes} → take_while1 f i ≡ done r a → (i ≡ a ++ r) × (a ≢ []) × AllTest f a
  unfolding take_while1
  take_while1-eq-done [] h = cc
  take_while1-eq-done (c ∷ i) h = elim (Bool-cases (f c)) [
    | inl pass ↦
        let (s, e, e') = behind-eq-done c (take_while f i) (rw pass at h) in
        let (g, all) = take_while-eq-done i e in (rw e' (rw (← g)), rw e' (cc), rw e' (pass, all))
    | inr fail ↦ cc (rw fail at h)
  ]

pub digit_ascii : (ds : Bytes) → AllTest is_digit ds → All (λ c. c < 0x80) ds
digit_ascii [] h = tt
digit_ascii (c ∷ ds) (hc, hs) = (ground arith, digit_ascii ds hs)

-- The value of a numeral.
numeral_lem :
    (ds : Bytes) {v : ℕ} → ds ≢ [] → AllTest is_digit ds → parse_u64 ds ≡ some v → IsNumeral ds v
numeral_lem [] ne h e = absurd (ne refl)
numeral_lem (c ∷ ds) ne h e = record {
  some_digit = ne;
  all_digits = h;
  spells = ground (arith, parse_u64-value c ds h);
  fits = ground (arith, parse_u64-value c ds h);
}

pub number-eq-done :
    (i : Bytes) {r : Bytes} {v : ℕ}
    → number nom parse_u64 i ≡ done r v
    → (ds : Bytes) × (i ≡ ds ++ r) × IsNumeral ds v
unfolding number
number-eq-done i h =
    let (j, s, e, e') =
      and_then-eq-done (and_then (take_while1 is_digit i) (λ a. accept (from_utf8 a))) _ h in
    let (k, ds, g, g') = and_then-eq-done (take_while1 is_digit i) _ e in
    let (split, ne, all) = take_while1-eq-done is_digit i g in
    let (text, same) = accept-eq-done (from_utf8 ds) k g' in
    let (value, last) = accept-eq-done (parse_u64 s) j e' in
    let ascii = from_utf8_ascii ds (digit_ascii ds all) in
    (ds, rw (← last, ← same) split, numeral_lem ds ne all (let q : ds ≡ s = cc in rw q value))

pub accepted_text-eq-done :
    (r : IResult Bytes) {j : Bytes} {s : Str}
    → and_then r (λ a. accept (from_utf8 a)) ≡ done j s
    → (t : Bytes) × (r ≡ done j t) × (from_utf8 t ≡ some s)
accepted_text-eq-done r h =
    let (i, t, e, e') = and_then-eq-done r _ h in
    let (text, same) = accept-eq-done (from_utf8 t) i e' in (t, rw same at e, text)

pub done-injective {ℓ} :
    {A : Type ℓ} {i j : Bytes} {a b : A} → done i a ≡ done j b → (i ≡ j) × (a ≡ b)
done-injective h = (cc, cc)

module _ {A B C : Type 0} (p : Parser A) (q : Parser B) (r : Parser C) (i : Bytes) {s : Bytes} where
  pub delimited-eq-done :
      {b : B}
      → nom.delimited p q r i ≡ done s b
      → (j : Bytes) × (k : Bytes) × (x : A) × (y : C) × (p i ≡ done j x)
        × (q j ≡ done k b)
        × (r k ≡ done s y)
  delimited-eq-done h =
      let (j, x, e, h₁) = and_then-eq-done (p i) _ h in
      let (k, b, e', h₂) = and_then-eq-done (q j) _ h₁ in
      let (l, y, e'', h₃) = and_then-eq-done (r k) _ h₂ in
      let (rest, out) = done-injective h₃ in (j, k, x, y, e, rw out at e', rw rest at e'')

  pub separated_pair-eq-done :
      {a : A} {c : C}
      → nom.separated_pair p q r i ≡ done s (a, c)
      → (j : Bytes) × (k : Bytes) × (x : B) × (p i ≡ done j a) × (q j ≡ done k x) × (r k ≡ done s c)
  separated_pair-eq-done h =
      let (j, a, e, h₁) = and_then-eq-done (p i) _ h in
      let (k, x, e', h₂) = and_then-eq-done (q j) _ h₁ in
      let (l, c, e'', h₃) = and_then-eq-done (r k) _ h₂ in
      let (rest, out) = done-injective h₃ in
      (j, k, x, rw (ap (λ t. t.0) out) at e, e', rw (rest, ap (λ t. t.1) out) at e'')

  pub tuple-eq-done :
      {a : A} {b : B} {c : C}
      → nom.tuple p q r i ≡ done s (a, b, c)
      → (j : Bytes) × (k : Bytes) × (p i ≡ done j a) × (q j ≡ done k b) × (r k ≡ done s c)
  tuple-eq-done h =
      let (j, a, e, h₁) = and_then-eq-done (p i) _ h in
      let (k, b, e', h₂) = and_then-eq-done (q j) _ h₁ in
      let (l, c, e'', h₃) = and_then-eq-done (r k) _ h₂ in
      let (rest, out) = done-injective h₃ in
      (
        j,
        k,
        rw (ap (λ t. t.0) out) at e,
        rw (ap (λ t. t.1) out) at e',
        rw (rest, ap (λ t. t.2) out) at e'',
      )

pub terminated-eq-done :
    {A B : Type 0} (p : Parser A) (q : Parser B) (i : Bytes) {s : Bytes} {a : A}
    → nom.terminated p q i ≡ done s a
    → (j : Bytes) × (y : B) × (p i ≡ done j a) × (q j ≡ done s y)
terminated-eq-done p q i h =
    let (j, a, e, h₁) = and_then-eq-done (p i) _ h in
    let (k, y, e', h₂) = and_then-eq-done (q j) _ h₁ in
    let (rest, out) = done-injective h₂ in (j, y, rw out at e, rw rest at e')

pub optional-eq-done :
    {A : Type 0} (i : Bytes) (r : IResult A) {j : Bytes} {o : Option A}
    → optional i r ≡ done j o
    → ((o ≡ none) × (i ≡ j)) ⊎ ((a : A) × (o ≡ some a) × (r ≡ done j a))
optional-eq-done i (done k a) h = let (rest, out) = done-injective h in inr (a, sym out, rw rest)
optional-eq-done i incomplete h = cc
optional-eq-done i error h = let (rest, out) = done-injective h in inl (sym out, rest)
optional-eq-done i failure h = cc

pub or_else-eq-done :
    {A : Type 0} (r s : IResult A) {j : Bytes} {a : A}
    → or_else r s ≡ done j a
    → (r ≡ done j a) ⊎ (s ≡ done j a)
or_else-eq-done (done k b) s h = inl h
or_else-eq-done incomplete s h = inl h
or_else-eq-done error s h = inr h
or_else-eq-done failure s h = inl h

pub unrecoverable-eq-done :
    {A : Type 0} (r : IResult A) {j : Bytes} {a : A} → unrecoverable r ≡ done j a → r ≡ done j a
unrecoverable-eq-done (done k b) h = h
unrecoverable-eq-done incomplete h = cc
unrecoverable-eq-done error h = cc
unrecoverable-eq-done failure h = cc
