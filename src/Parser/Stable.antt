-- ===== src/Parser/Stable.antt =====
-- Streaming: once a parser has decided on a prefix of the input, what arrives later does not
-- change the decision. Each combinator of `nom` keeps this, at the reference implementation.
use mpd_protocol.Prelude.{
  ℕ, zero, suc, ◌≡◌, ◌⊎◌, inl, inr, refl, Bool, Option, none, some, [], ◌∷◌, ◌++◌, arith, ◌==◌,
  Bool-cases, Bytes,
}
use mpd_protocol.Nom.Laws.{
  IResult, done, incomplete, error, failure, Parser, and_then, or_else, unrecoverable, optional,
  accept,
}
use mpd_protocol.Nom.Reference.{behind, tag, take, take_while, take_while1, char}

-- The same result with more input behind the rest.
abbrev pub extend {ℓ} : {A : Type ℓ} → Bytes → IResult A → IResult A
extend x (done r a) = done (r ++ x) a
extend x incomplete = incomplete
extend x error = error
extend x failure = failure

pub record Stable {ℓ} {A : Type ℓ} (p : Parser A) : Type ℓ where
  pub at : (i x : Bytes) → (p i ≡ incomplete) ⊎ (p (i ++ x) ≡ extend x (p i))

module _ {ℓ} {A : Type ℓ} where
  pub Stable-done : (a : A) → Stable (λ rest. done rest a)
  Stable-done a = record { at = λ i x. inr refl }

  pub Stable-accept : (o : Option A) → Stable (accept o)
  Stable-accept none = record { at = λ i x. inr refl }
  Stable-accept (some a) = record { at = λ i x. inr refl }

  optional_step :
      (i x : Bytes) (r s : IResult A)
      → (r ≡ incomplete) ⊎ (s ≡ extend x r)
      → (optional i r ≡ incomplete) ⊎ (optional (i ++ x) s ≡ extend x (optional i r))
  optional_step i x r s (inl e) = inl (rw e)
  optional_step i x (done j a) s (inr e) = inr (rw e)
  optional_step i x incomplete s (inr e) = inl refl
  optional_step i x error s (inr e) = inr (rw e)
  optional_step i x failure s (inr e) = inr (rw e)

  pub Stable-optional : {p : Parser A} → Stable p → Stable (λ i. optional i (p i))
  Stable-optional {p} h = record { at = λ i x. optional_step i x (p i) (p (i ++ x)) (h.at i x) }

  unrecoverable_step :
      (x : Bytes) (r s : IResult A)
      → (r ≡ incomplete) ⊎ (s ≡ extend x r)
      → (unrecoverable r ≡ incomplete) ⊎ (unrecoverable s ≡ extend x (unrecoverable r))
  unrecoverable_step x r s (inl e) = inl (rw e)
  unrecoverable_step x (done j a) s (inr e) = inr (rw e)
  unrecoverable_step x incomplete s (inr e) = inl refl
  unrecoverable_step x error s (inr e) = inr (rw e)
  unrecoverable_step x failure s (inr e) = inr (rw e)

  pub Stable-unrecoverable : {p : Parser A} → Stable p → Stable (λ i. unrecoverable (p i))
  Stable-unrecoverable {p} h = record {
    at = λ i x. unrecoverable_step x (p i) (p (i ++ x)) (h.at i x);
  }

  or_else_step :
      (x : Bytes) (r s r' s' : IResult A)
      → (r ≡ incomplete) ⊎ (s ≡ extend x r)
      → (r' ≡ incomplete) ⊎ (s' ≡ extend x r')
      → (or_else r r' ≡ incomplete) ⊎ (or_else s s' ≡ extend x (or_else r r'))
  or_else_step x r s r' s' (inl e) h = inl (rw e)
  or_else_step x (done j a) s r' s' (inr e) h = inr (rw e)
  or_else_step x incomplete s r' s' (inr e) h = inl refl
  or_else_step x error s r' s' (inr e) h = rw e h
  or_else_step x failure s r' s' (inr e) h = inr (rw e)

  pub Stable-or_else : {p q : Parser A} → Stable p → Stable q → Stable (λ i. or_else (p i) (q i))
  Stable-or_else {p} {q} h k = record {
    at = λ i x. or_else_step x (p i) (p (i ++ x)) (q i) (q (i ++ x)) (h.at i x) (k.at i x);
  }

module _ {ℓ κ} {A : Type ℓ} {B : Type κ} where
  and_then_step :
      (x : Bytes) (r s : IResult A) (k : A → Parser B)
      → (r ≡ incomplete) ⊎ (s ≡ extend x r)
      → ((a : A) → Stable (k a))
      → (and_then r k ≡ incomplete) ⊎ (and_then s k ≡ extend x (and_then r k))
  and_then_step x r s k (inl e) h = inl (rw e)
  and_then_step x (done j a) s k (inr e) h = rw e ((h a).at j x)
  and_then_step x incomplete s k (inr e) h = inl refl
  and_then_step x error s k (inr e) h = inr (rw e)
  and_then_step x failure s k (inr e) h = inr (rw e)

  pub Stable-and_then :
      {p : Parser A} {k : A → Parser B}
      → Stable p
      → ((a : A) → Stable (k a))
      → Stable (λ i. and_then (p i) k)
  Stable-and_then {p} {k} h hk = record {
    at = λ i x. and_then_step x (p i) (p (i ++ x)) k (h.at i x) hk;
  }

behind_step :
    (c : ℕ) (x : Bytes) (r s : IResult Bytes)
    → (r ≡ incomplete) ⊎ (s ≡ extend x r)
    → (behind c r ≡ incomplete) ⊎ (behind c s ≡ extend x (behind c r))
behind_step c x r s (inl e) = inl (rw e)
behind_step c x (done j a) s (inr e) = inr (rw e)
behind_step c x incomplete s (inr e) = inl refl
behind_step c x error s (inr e) = inr (rw e)
behind_step c x failure s (inr e) = inr (rw e)

tag_step : (t i x : Bytes) → (tag t i ≡ incomplete) ⊎ (tag t (i ++ x) ≡ extend x (tag t i))
unfolding tag
tag_step [] i x = inr refl
tag_step (c ∷ t) [] x = inl refl
tag_step (c ∷ t) (d ∷ i) x = elim (Bool-cases (c == d)) [
  | inl e ↦ rw e (behind_step c x (tag t i) (tag t (i ++ x)) (tag_step t i x))
  | inr e ↦ inr (rw e)
]

take_step :
    (k : ℕ) (i x : Bytes) → (take k i ≡ incomplete) ⊎ (take k (i ++ x) ≡ extend x (take k i))
unfolding take
take_step zero i x = inr refl
take_step (suc k) [] x = inl refl
take_step (suc k) (d ∷ i) x = behind_step d x (take k i) (take k (i ++ x)) (take_step k i x)

take_while_step :
    (f : ℕ → Bool) (i x : Bytes)
    → (take_while f i ≡ incomplete) ⊎ (take_while f (i ++ x) ≡ extend x (take_while f i))
unfolding take_while
take_while_step f [] x = inl refl
take_while_step f (c ∷ i) x = elim (Bool-cases (f c)) [
  | inl e ↦ rw e (behind_step c x (take_while f i) (take_while f (i ++ x)) (take_while_step f i x))
  | inr e ↦ inr (rw e)
]

take_while1_step :
    (f : ℕ → Bool) (i x : Bytes)
    → (take_while1 f i ≡ incomplete) ⊎ (take_while1 f (i ++ x) ≡ extend x (take_while1 f i))
unfolding take_while1
take_while1_step f [] x = inl refl
take_while1_step f (c ∷ i) x = elim (Bool-cases (f c)) [
  | inl e ↦ rw e (behind_step c x (take_while f i) (take_while f (i ++ x)) (take_while_step f i x))
  | inr e ↦ inr (rw e)
]

char_step :
    (c : ℕ) (i x : Bytes) → (char c i ≡ incomplete) ⊎ (char c (i ++ x) ≡ extend x (char c i))
unfolding char
char_step c [] x = inl refl
char_step c (d ∷ i) x = inr (ground arith)

pub Stable-tag : (t : Bytes) → Stable (tag t)
Stable-tag t = record { at = tag_step t }

pub Stable-take : (k : ℕ) → Stable (take k)
Stable-take k = record { at = take_step k }

pub Stable-take_while : (f : ℕ → Bool) → Stable (take_while f)
Stable-take_while f = record { at = take_while_step f }

pub Stable-take_while1 : (f : ℕ → Bool) → Stable (take_while1 f)
Stable-take_while1 f = record { at = take_while1_step f }

pub Stable-char : (c : ℕ) → Stable (char c)
Stable-char c = record { at = char_step c }
