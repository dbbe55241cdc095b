-- ===== src/BytesMut.antt =====
-- The crate `bytes`: what the program calls of `BytesMut`. The crate is not part of the repository,
-- so its functions are the parameter `BytesOps`. A buffer is its contents, which is what it
-- dereferences to; its capacity is not modelled, and `none` is a panic.
use mpd_protocol.Prelude.{
  ℕ, zero, suc, ◌≤◌, ◌<◌, ◌≡◌, refl, sym, ◌∙◌, ap, subst, false, Option, none, some, [], ◌∷◌, ◌++◌,
  inl, inr, arith, ltb, if◌then◌else◌, Bool-cases, length, take, drop, take-append, drop-append,
  take-append-drop, length-take, length-append, Bytes,
}

pub record BytesOps : Type 0 where
  pub new : Bytes
  -- The part that is returned, and the part that stays in the buffer.
  pub split_to : Bytes → ℕ → Option (Bytes × Bytes)
  pub advance : Bytes → ℕ → Option Bytes
  pub truncate : Bytes → ℕ → Bytes
  pub extend_from_slice : Bytes → Bytes → Bytes
  pub put_u8 : Bytes → ℕ → Bytes
  pub reserve : Bytes → ℕ → Bytes

pub record BytesLaws (b : BytesOps) : Type 0 where
  pub new_lem : b.new ≡ []
  pub split_to_within : (s t : Bytes) → b.split_to (s ++ t) (length s) ≡ some (s, t)
  pub split_to_beyond : (s : Bytes) (n : ℕ) → length s < n → b.split_to s n ≡ none
  pub advance_within : (s t : Bytes) → b.advance (s ++ t) (length s) ≡ some t
  pub advance_beyond : (s : Bytes) (n : ℕ) → length s < n → b.advance s n ≡ none
  pub truncate_within : (s t : Bytes) → b.truncate (s ++ t) (length s) ≡ s
  pub truncate_beyond : (s : Bytes) (n : ℕ) → length s ≤ n → b.truncate s n ≡ s
  pub extend_from_slice_lem : (s t : Bytes) → b.extend_from_slice s t ≡ s ++ t
  pub put_u8_lem : (s : Bytes) (c : ℕ) → b.put_u8 s c ≡ s ++ c ∷ []
  pub reserve_lem : (s : Bytes) (n : ℕ) → b.reserve s n ≡ s

-- An implementation by lists, for the tests and to show that the laws can be met.
abbrev pub list_bytes : BytesOps
list_bytes = record {
  new = [];
  split_to = λ s n. if ltb (length s) n then none else some (take n s, drop n s);
  advance = λ s n. if ltb (length s) n then none else some (drop n s);
  truncate = λ s n. take n s;
  extend_from_slice = λ s t. s ++ t;
  put_u8 = λ s c. s ++ c ∷ [];
  reserve = λ s n. s;
}

take_all : (s : Bytes) (n : ℕ) → length s ≤ n → take n s ≡ s
take_all [] zero h = refl
take_all [] (suc n) h = refl
take_all (c ∷ s) zero h = absurd (omega arith)
take_all (c ∷ s) (suc n) h = ap (λ t. c ∷ t) (take_all s n (omega arith))

not_beyond : (s t : Bytes) → ltb (length (s ++ t)) (length s) ≡ false
not_beyond s t = ground (arith, length-append s t)

pub list_bytes-BytesLaws : BytesLaws list_bytes
list_bytes-BytesLaws = record {
  new_lem = refl;
  split_to_within = λ s t. rw (not_beyond s t, take-append s t, drop-append s t);
  split_to_beyond = λ s n h. ground arith;
  advance_within = λ s t. rw (not_beyond s t, drop-append s t);
  advance_beyond = λ s n h. ground arith;
  truncate_within = take-append;
  truncate_beyond = take_all;
  extend_from_slice_lem = λ s t. refl;
  put_u8_lem = λ s c. refl;
  reserve_lem = λ s n. refl;
}

-- Two implementations that meet the laws agree on a buffer cut at a length.
module _ {b c : BytesOps} (lb : BytesLaws b) (lc : BytesLaws c) where
  module _ {ℓ} {A : Type ℓ} (f g : Bytes → ℕ → A) where
    at_cut :
        (s : Bytes) (n : ℕ)
        → ((s t : Bytes) → f (s ++ t) (length s) ≡ g (s ++ t) (length s))
        → ((s : Bytes) (n : ℕ) → length s < n → f s n ≡ g s n)
        → f s n ≡ g s n
    at_cut s n within beyond = elim (Bool-cases (ltb (length s) n)) [
      | inl less ↦ beyond s n (ground arith)
      | inr enough ↦
          subst (λ t. f t n ≡ g t n) (take-append-drop n s)
            (subst (λ k. f (take n s ++ drop n s) k ≡ g (take n s ++ drop n s) k)
              (length-take n s (ground arith)) (within (take n s) (drop n s)))
    ]

  pub BytesLaws_unique : b ≡ c
  BytesLaws_unique = λ j. record {
    new = (lb.new_lem ∙ sym lc.new_lem) j;
    split_to = λ s n.
        at_cut b.split_to c.split_to s n
          (λ s t. lb.split_to_within s t ∙ sym (lc.split_to_within s t))
          (λ s n h. lb.split_to_beyond s n h ∙ sym (lc.split_to_beyond s n h)) j;
    advance = λ s n.
        at_cut b.advance c.advance s n (λ s t. lb.advance_within s t ∙ sym (lc.advance_within s t))
          (λ s n h. lb.advance_beyond s n h ∙ sym (lc.advance_beyond s n h)) j;
    truncate = λ s n.
        at_cut b.truncate c.truncate s n
          (λ s t. lb.truncate_within s t ∙ sym (lc.truncate_within s t))
          (λ s n h.
            lb.truncate_beyond s n (omega arith) ∙ sym (lc.truncate_beyond s n (omega arith)))
          j;
    extend_from_slice =
        λ s t. (lb.extend_from_slice_lem s t ∙ sym (lc.extend_from_slice_lem s t)) j;
    put_u8 = λ s x. (lb.put_u8_lem s x ∙ sym (lc.put_u8_lem s x)) j;
    reserve = λ s n. (lb.reserve_lem s n ∙ sym (lc.reserve_lem s n)) j;
  }
