-- ===== src/Nom/Reference.antt =====
-- One implementation of the interface of `nom`, and the proof that it meets the laws: they can be
-- met, and the tests run with it.
use mpd_protocol.Prelude.{
  ℕ, zero, suc, ◌<◌, ◌≡◌, ◌≢◌, refl, Bool, false, ◌&&◌, ◌||◌, [], ◌∷◌, ◌++◌, arith, leb, ◌==◌,
  if◌then◌else◌, length, AllTest, Bytes,
}
use mpd_protocol.Std.Number.{is_digit}
use mpd_protocol.Nom.Laws.{
  IResult, done, incomplete, error, failure, Parser, and_then, or_else, unrecoverable, optional,
  accept, NomOps, NomLaws,
}

-- `b` was read before the rest of the output.
abbrev pub behind : ℕ → IResult Bytes → IResult Bytes
behind b (done rest t) = done rest (b ∷ t)
behind b incomplete = incomplete
behind b error = error
behind b failure = failure

unfoldable pub tag : Bytes → Parser Bytes
tag [] i = done i []
tag (t ∷ ts) [] = incomplete
tag (t ∷ ts) (c ∷ cs) = let rest = behind t (tag ts cs) in if t == c then rest else error

unfoldable pub take : ℕ → Parser Bytes
take zero i = done i []
take (suc n) [] = incomplete
take (suc n) (c ∷ cs) = behind c (take n cs)

unfoldable pub take_while : (ℕ → Bool) → Parser Bytes
take_while f [] = incomplete
take_while f (c ∷ cs) =
    let rest = behind c (take_while f cs) in if f c then rest else done (c ∷ cs) []

unfoldable pub take_while1 : (ℕ → Bool) → Parser Bytes
unfolding take_while
take_while1 f [] = incomplete
take_while1 f (c ∷ cs) = if f c then take_while f (c ∷ cs) else error

unfoldable pub char : ℕ → Parser ℕ
char c [] = incomplete
char c (d ∷ cs) = if c == d then done cs c else error

abbrev pub is_alphabetic : ℕ → Bool
is_alphabetic c = leb b'A' c && leb c b'Z' || leb b'a' c && leb c b'z'

abbrev pub nom : NomOps
nom = record {
  tag = tag;
  take = take;
  take_while = take_while;
  take_while1 = take_while1;
  digit1 = take_while1 is_digit;
  char = char;
  newline = char b'\n';
  is_alphabetic = is_alphabetic;
  alt = λ p q r s t i. or_else (p i) (or_else (q i) (or_else (r i) (or_else (s i) (t i))));
  cut = λ p i. unrecoverable (p i);
  map = λ p f i. and_then (p i) (λ a rest. done rest (f a));
  map_res = λ p f i. and_then (p i) (λ a. accept (f a));
  opt = λ p i. optional i (p i);
  delimited =
      λ p q r i. and_then (p i) (λ _ j. and_then (q j) (λ b k. and_then (r k) (λ _ l. done l b)));
  separated_pair = λ p q r i.
      and_then (p i) (λ a j. and_then (q j) (λ _ k. and_then (r k) (λ c l. done l (a, c))));
  terminated = λ p q i. and_then (p i) (λ a j. and_then (q j) (λ _ k. done k a));
  tuple = λ p q r i.
      and_then (p i) (λ a j. and_then (q j) (λ b k. and_then (r k) (λ c l. done l (a, b, c))));
}

pub tag_match : (t r : Bytes) → tag t (t ++ r) ≡ done r t
unfolding tag
tag_match [] r = refl
tag_match (c ∷ t) r = ground (arith, tag_match t r)

tag_short : (i : Bytes) (c : ℕ) (more : Bytes) → tag (i ++ c ∷ more) i ≡ incomplete
unfolding tag
tag_short [] c more = refl
tag_short (d ∷ i) c more = ground (arith, tag_short i c more)

tag_differs : (p : Bytes) (c d : ℕ) (u v : Bytes) → c ≢ d → tag (p ++ c ∷ u) (p ++ d ∷ v) ≡ error
unfolding tag
tag_differs [] c d u v h = ground arith
tag_differs (b ∷ p) c d u v h = ground (arith, tag_differs p c d u v h)

pub take_enough : (t r : Bytes) → take (length t) (t ++ r) ≡ done r t
unfolding take
take_enough [] r = refl
take_enough (c ∷ t) r = rw (take_enough t r)

take_short : (k : ℕ) (i : Bytes) → length i < k → take k i ≡ incomplete
unfolding take
take_short zero i h = absurd (omega arith)
take_short (suc k) [] h = refl
take_short (suc k) (c ∷ i) h = rw (take_short k i (omega arith))

module _ (f : ℕ → Bool) where
  pub take_while_stop :
      (t : Bytes) (c : ℕ) (r : Bytes)
      → AllTest f t
      → f c ≡ false
      → take_while f (t ++ c ∷ r) ≡ done (c ∷ r) t
  unfolding take_while
  take_while_stop [] c r h e = rw e
  take_while_stop (b ∷ t) c r (hb, ht) e = rw (hb, take_while_stop t c r ht e)

  take_while_end : (i : Bytes) → AllTest f i → take_while f i ≡ incomplete
  unfolding take_while
  take_while_end [] h = refl
  take_while_end (c ∷ i) (hc, hi) = rw (hc, take_while_end i hi)

  pub take_while1_stop :
      (b : ℕ) (t : Bytes) (c : ℕ) (r : Bytes)
      → AllTest f (b ∷ t)
      → f c ≡ false
      → take_while1 f (b ∷ (t ++ c ∷ r)) ≡ done (c ∷ r) (b ∷ t)
  unfolding take_while1
  take_while1_stop b t c r h e = rw (h.0, take_while_stop t c r h.1 e)

  take_while1_none : (c : ℕ) (r : Bytes) → f c ≡ false → take_while1 f (c ∷ r) ≡ error
  unfolding take_while1
  take_while1_none c r e = rw e

  take_while1_end : (i : Bytes) → AllTest f i → take_while1 f i ≡ incomplete
  unfolding take_while1
  take_while1_end [] h = refl
  take_while1_end (c ∷ i) h = rw (h.0, take_while_end i h.1)

char_match : (c : ℕ) (r : Bytes) → char c (c ∷ r) ≡ done r c
unfolding char
char_match c r = ground arith

char_differs : (c d : ℕ) (r : Bytes) → c ≢ d → char c (d ∷ r) ≡ error
unfolding char
char_differs c d r h = ground arith

pub nom-NomLaws : NomLaws nom
unfolding char
nom-NomLaws = record {
  leaf = record {
    tag_match = tag_match;
    tag_short = tag_short;
    tag_differs = tag_differs;
    take_enough = take_enough;
    take_short = take_short;
    take_while_stop = take_while_stop;
    take_while_end = take_while_end;
    take_while1_stop = take_while1_stop;
    take_while1_none = take_while1_none;
    take_while1_end = take_while1_end;
    digit1_lem = λ i. refl;
    char_match = char_match;
    char_differs = char_differs;
    char_end = λ c. refl;
    newline_lem = λ i. refl;
    is_alphabetic_lem = λ c. refl;
  };
  combinator = record {
    alt_lem = λ p q r s t i. refl;
    cut_lem = λ p i. refl;
    map_lem = λ p f i. refl;
    map_res_lem = λ p f i. refl;
    opt_lem = λ p i. refl;
    delimited_lem = λ p q r i. refl;
    separated_pair_lem = λ p q r i. refl;
    terminated_lem = λ p q i. refl;
    tuple_lem = λ p q r i. refl;
  };
}
