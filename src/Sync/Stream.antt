-- ===== src/Sync/Stream.antt =====
-- A stream of bytes cut at its first delimiter, and what is asked of `memchr` and of the source: the
-- terms in which reading with src/sync.rs is described.
use mpd_protocol.Prelude.{
  Bool, true, false, ℕ, suc, ◌≡◌, ◌≢◌, inl, inr, refl, ap, true, false, Option, none, some, [], ◌∷◌,
  ◌++◌, arith, ◌==◌, if◌then◌else◌, Bool-cases, length, length-append, take, drop, All, Bytes,
}
use mpd_protocol.Sync.BufRead.{Fill, bytes, interruption, failure}

-- What `memchr::memchr` documents: the position of the first byte that is equal, if there is one.
pub record MemchrLaws (memchr : ℕ → Bytes → Option ℕ) : Type 0 where
  pub found :
      (d : ℕ) (before after : Bytes)
      → All (λ x. x ≢ d) before
      → memchr d (before ++ d ∷ after) ≡ some (length before)
  pub absent : (d : ℕ) (s : Bytes) → All (λ x. x ≢ d) s → memchr d s ≡ none

-- A stream up to its first delimiter, the delimiter included, and the rest.
abbrev pub first_line : ℕ → Bytes → Bytes
first_line d [] = []
first_line d (x ∷ s) = let line = first_line d s in if x == d then x ∷ [] else x ∷ line

abbrev pub after_line : ℕ → Bytes → Bytes
after_line d [] = []
after_line d (x ∷ s) = let rest = after_line d s in if x == d then s else rest

-- The source gives bytes or is interrupted; it does not fail, and an empty result, which means the
-- end, comes only at the end.
unfoldable pub Healthy : Fill → Type 0
Healthy (bytes b) = b ≢ []
Healthy interruption = Unit {0}
Healthy (failure e) = ⊥

pub Healthy-bytes : (x : ℕ) (b : Bytes) → Healthy (bytes (x ∷ b))
unfolding Healthy
Healthy-bytes x b = cc

pub Healthy-interruption : Healthy interruption
unfolding Healthy
Healthy-interruption = tt

pub first_line-append-after_line : (d : ℕ) (s : Bytes) → first_line d s ++ after_line d s ≡ s
first_line-append-after_line d [] = refl
first_line-append-after_line d (x ∷ s) = elim (Bool-cases (x == d)) [
  | inl here ↦ rw here refl
  | inr later ↦ rw later (ap (λ t. x ∷ t) (first_line-append-after_line d s))
]

-- Whether the delimiter is in a piece of the stream.
pub data Piece (d : ℕ) (a : Bytes) : Type 0 where
  whole : All (λ x. x ≢ d) a → Piece d a
  cut : (p q : Bytes) → a ≡ p ++ d ∷ q → All (λ x. x ≢ d) p → Piece d a

pub piece : (d : ℕ) (a : Bytes) → Piece d a
piece d [] = whole tt
piece d (x ∷ a) = elim (Bool-cases (x == d)) [
  | inl here ↦ cut [] a (ap (λ y. y ∷ a) (let same : x ≡ d = ground arith in same)) tt
  | inr later ↦
      let ne : x ≢ d = ground arith in
      elim (piece d a) [
        | whole free ↦ whole (ne, free)
        | cut p q splits free ↦ cut (x ∷ p) q (ap (λ t. x ∷ t) splits) (ne, free)
      ]
]

pub lines-whole :
    (d : ℕ) (a t : Bytes)
    → All (λ x. x ≢ d) a
    → (first_line d (a ++ t) ≡ a ++ first_line d t) × (after_line d (a ++ t) ≡ after_line d t)
lines-whole d [] t h = (refl, refl)
lines-whole d (x ∷ a) t (hx, ha) =
    let later : (x == d) ≡ false = ground arith in
    let (l, r) = lines-whole d a t ha in (rw later (ap (λ s. x ∷ s) l), rw later r)

pub lines-cut :
    (d : ℕ) (p q t : Bytes)
    → All (λ x. x ≢ d) p
    → (first_line d ((p ++ d ∷ q) ++ t) ≡ p ++ d ∷ []) × (after_line d ((p ++ d ∷ q) ++ t) ≡ q ++ t)
lines-cut d [] q t h = let here : (d == d) ≡ true = ground arith in (rw here refl, rw here refl)
lines-cut d (x ∷ p) q t (hx, hp) =
    let later : (x == d) ≡ false = ground arith in
    let (l, r) = lines-cut d p q t hp in (rw later (ap (λ s. x ∷ s) l), rw later r)

pub drop_all : (a : Bytes) → drop (length a) a ≡ []
drop_all [] = refl
drop_all (x ∷ a) = drop_all a

pub drop_past : (d : ℕ) (p q : Bytes) → drop (suc (length p)) (p ++ d ∷ q) ≡ q
drop_past d [] q = refl
drop_past d (x ∷ p) q = drop_past d p q

pub take_past : (d : ℕ) (p q : Bytes) → take (suc (length p)) (p ++ d ∷ q) ≡ p ++ d ∷ []
take_past d [] q = refl
take_past d (x ∷ p) q = ap (λ t. x ∷ t) (take_past d p q)

pub length-snoc : (d : ℕ) (p : Bytes) → length (p ++ d ∷ []) ≡ suc (length p)
length-snoc d p = omega (arith, length-append {0} p (d ∷ []))

-- Whether the delimiter occurs.
abbrev pub contains : ℕ → Bytes → Bool
contains d [] = false
contains d (x ∷ s) = let later = contains d s in if x == d then true else later

pub lines-contains :
    (d : ℕ) (a t : Bytes)
    → contains d a ≡ true
    → (first_line d (a ++ t) ≡ first_line d a) × (after_line d (a ++ t) ≡ after_line d a ++ t)
lines-contains d [] t h = cc
lines-contains d (x ∷ a) t h = elim (Bool-cases (x == d)) [
  | inl here ↦ rw here (refl, refl)
  | inr later ↦
      let (l, r) = lines-contains d a t (rw later at h) in
      (rw later (ap (λ s. x ∷ s) l), rw later r)
]

pub lines-lacks :
    (d : ℕ) (a t : Bytes)
    → contains d a ≡ false
    → (first_line d (a ++ t) ≡ a ++ first_line d t) × (after_line d (a ++ t) ≡ after_line d t)
lines-lacks d [] t h = (refl, refl)
lines-lacks d (x ∷ a) t h = elim (Bool-cases (x == d)) [
  | inl here ↦ cc (rw here at h)
  | inr later ↦
      let (l, r) = lines-lacks d a t (rw later at h) in (rw later (ap (λ s. x ∷ s) l), rw later r)
]
