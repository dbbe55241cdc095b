-- ===== src/Nom/Laws.antt =====
-- The interface of `nom` and its documented laws. A failed parse has no payload here: the program
-- reads neither the `Needed` of an `Incomplete` nor the position and kind of an `Error`.
use mpd_protocol.Prelude.{
  ℕ, ◌<◌, ◌≡◌, ◌≢◌, Bool, false, ◌&&◌, ◌||◌, Option, none, some, [], ◌∷◌, ◌++◌, leb, length,
  AllTest, Bytes,
}
use mpd_protocol.Std.Number.{is_digit}

-- `IResult`: the rest of the input and the output, or one of the cases of `nom::Err`.
pub data IResult {ℓ} (A : Type ℓ) : Type ℓ where
  done : Bytes → A → IResult A
  incomplete error failure : IResult A

abbrev pub Parser {ℓ} : Type ℓ → Type ℓ
Parser A = Bytes → IResult A

module _ {ℓ κ} {A : Type ℓ} {B : Type κ} where
  -- Go on with the output and the rest; every failure is passed on.
  abbrev pub and_then : IResult A → (A → Parser B) → IResult B
  and_then (done rest a) k = k a rest
  and_then incomplete k = incomplete
  and_then error k = error
  and_then failure k = failure

-- Only the recoverable `Error` lets the next alternative run.
abbrev pub or_else {ℓ} : {A : Type ℓ} → IResult A → IResult A → IResult A
or_else error s = s
or_else r s = r

-- `cut` makes an `Error` a `Failure`.
abbrev pub unrecoverable {ℓ} : {A : Type ℓ} → IResult A → IResult A
unrecoverable error = failure
unrecoverable r = r

-- `opt`: on `Error` nothing is consumed.
abbrev pub optional {ℓ} : {A : Type ℓ} → Bytes → IResult A → IResult (Option A)
optional i (done rest a) = done rest (some a)
optional i incomplete = incomplete
optional i error = done i none
optional i failure = failure

abbrev pub accept {ℓ} : {A : Type ℓ} → Option A → Parser A
accept none rest = error
accept (some a) rest = done rest a

pub record NomOps : Type 1 where
  pub tag : Bytes → Parser Bytes
  pub take : ℕ → Parser Bytes
  pub take_while : (ℕ → Bool) → Parser Bytes
  pub take_while1 : (ℕ → Bool) → Parser Bytes
  pub digit1 : Parser Bytes
  pub char : ℕ → Parser ℕ
  pub newline : Parser ℕ
  pub is_alphabetic : ℕ → Bool
  pub alt : {A : Type 0} → Parser A → Parser A → Parser A → Parser A → Parser A → Parser A
  pub cut : {A : Type 0} → Parser A → Parser A
  pub map : {A B : Type 0} → Parser A → (A → B) → Parser B
  pub map_res : {A B : Type 0} → Parser A → (A → Option B) → Parser B
  pub opt : {A : Type 0} → Parser A → Parser (Option A)
  pub delimited : {A B C : Type 0} → Parser A → Parser B → Parser C → Parser B
  pub separated_pair : {A B C : Type 0} → Parser A → Parser B → Parser C → Parser (A × C)
  pub terminated : {A B : Type 0} → Parser A → Parser B → Parser A
  pub tuple : {A B C : Type 0} → Parser A → Parser B → Parser C → Parser (A × B × C)

-- The parsers that read bytes.
pub record LeafLaws (n : NomOps) : Type 1 where
  pub tag_match : (t r : Bytes) → n.tag t (t ++ r) ≡ done r t
  pub tag_short : (i : Bytes) (c : ℕ) (more : Bytes) → n.tag (i ++ c ∷ more) i ≡ incomplete
  pub tag_differs :
      (p : Bytes) (c d : ℕ) (u v : Bytes) → c ≢ d → n.tag (p ++ c ∷ u) (p ++ d ∷ v) ≡ error
  pub take_enough : (t r : Bytes) → n.take (length t) (t ++ r) ≡ done r t
  pub take_short : (k : ℕ) (i : Bytes) → length i < k → n.take k i ≡ incomplete
  pub take_while_stop :
      (f : ℕ → Bool) (t : Bytes) (c : ℕ) (r : Bytes)
      → AllTest f t
      → f c ≡ false
      → n.take_while f (t ++ c ∷ r) ≡ done (c ∷ r) t
  pub take_while_end : (f : ℕ → Bool) (i : Bytes) → AllTest f i → n.take_while f i ≡ incomplete
  pub take_while1_stop :
      (f : ℕ → Bool) (b : ℕ) (t : Bytes) (c : ℕ) (r : Bytes)
      → AllTest f (b ∷ t)
      → f c ≡ false
      → n.take_while1 f (b ∷ (t ++ c ∷ r)) ≡ done (c ∷ r) (b ∷ t)
  pub take_while1_none :
      (f : ℕ → Bool) (c : ℕ) (r : Bytes) → f c ≡ false → n.take_while1 f (c ∷ r) ≡ error
  pub take_while1_end : (f : ℕ → Bool) (i : Bytes) → AllTest f i → n.take_while1 f i ≡ incomplete
  pub digit1_lem : (i : Bytes) → n.digit1 i ≡ n.take_while1 is_digit i
  pub char_match : (c : ℕ) (r : Bytes) → n.char c (c ∷ r) ≡ done r c
  pub char_differs : (c d : ℕ) (r : Bytes) → c ≢ d → n.char c (d ∷ r) ≡ error
  pub char_end : (c : ℕ) → n.char c [] ≡ incomplete
  pub newline_lem : (i : Bytes) → n.newline i ≡ n.char b'\n' i
  pub is_alphabetic_lem :
      (c : ℕ) → n.is_alphabetic c ≡ (leb b'A' c && leb c b'Z' || leb b'a' c && leb c b'z')

-- The combinators.
pub record CombinatorLaws (n : NomOps) : Type 1 where
  pub alt_lem :
      {A : Type 0} (p q r s t : Parser A) (i : Bytes)
      → n.alt p q r s t i ≡ or_else (p i) (or_else (q i) (or_else (r i) (or_else (s i) (t i))))
  pub cut_lem : {A : Type 0} (p : Parser A) (i : Bytes) → n.cut p i ≡ unrecoverable (p i)
  pub map_lem :
      {A B : Type 0} (p : Parser A) (f : A → B) (i : Bytes)
      → n.map p f i ≡ and_then (p i) (λ a rest. done rest (f a))
  pub map_res_lem :
      {A B : Type 0} (p : Parser A) (f : A → Option B) (i : Bytes)
      → n.map_res p f i ≡ and_then (p i) (λ a. accept (f a))
  pub opt_lem : {A : Type 0} (p : Parser A) (i : Bytes) → n.opt p i ≡ optional i (p i)
  pub delimited_lem :
      {A B C : Type 0} (p : Parser A) (q : Parser B) (r : Parser C) (i : Bytes)
      → n.delimited p q r i
        ≡ and_then (p i) (λ _ j. and_then (q j) (λ b k. and_then (r k) (λ _ l. done l b)))
  pub separated_pair_lem :
      {A B C : Type 0} (p : Parser A) (q : Parser B) (r : Parser C) (i : Bytes)
      → n.separated_pair p q r i
        ≡ and_then (p i) (λ a j. and_then (q j) (λ _ k. and_then (r k) (λ c l. done l (a, c))))
  pub terminated_lem :
      {A B : Type 0} (p : Parser A) (q : Parser B) (i : Bytes)
      → n.terminated p q i ≡ and_then (p i) (λ a j. and_then (q j) (λ _ k. done k a))
  pub tuple_lem :
      {A B C : Type 0} (p : Parser A) (q : Parser B) (r : Parser C) (i : Bytes)
      → n.tuple p q r i
        ≡ and_then (p i) (λ a j. and_then (q j) (λ b k. and_then (r k) (λ c l. done l (a, b, c))))

pub record NomLaws (n : NomOps) : Type 1 where
  pub leaf : LeafLaws n
  pub combinator : CombinatorLaws n
