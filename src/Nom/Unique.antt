-- ===== src/Nom/Unique.antt =====
-- The laws leave no freedom: two implementations of `nom` that meet them are equal. So what holds
-- of the reference implementation holds of every one.
use mpd_protocol.Prelude.{
  ℕ, ◌<◌, ◌≡◌, ◌≢◌, inl, inr, refl, sym, ap, ◌∙◌, subst, Bool, true, false, [], ◌∷◌, ◌++◌, arith,
  ◌==◌, Bool-cases, length, AllTest, Bytes, ltb, take, drop, length-take, take-append-drop,
}
use mpd_protocol.Std.Number.{is_digit}
use mpd_protocol.Nom.Laws.{NomOps, LeafLaws, NomLaws}
use mpd_protocol.Nom.Reference

-- How a tag and an input can meet.
data TagView : Bytes → Bytes → Type 0 where
  matches : {t i : Bytes} (r : Bytes) → i ≡ t ++ r → TagView t i
  short : {t i : Bytes} (c : ℕ) (more : Bytes) → t ≡ i ++ c ∷ more → TagView t i
  differs :
      {t i : Bytes} (p : Bytes) (c d : ℕ) (u v : Bytes)
      → c ≢ d
      → t ≡ p ++ c ∷ u
      → i ≡ p ++ d ∷ v
      → TagView t i

TagView-cons : {t i : Bytes} (b : ℕ) → TagView t i → TagView (b ∷ t) (b ∷ i)
TagView-cons b (matches r e) = matches r (ap (λ x. b ∷ x) e)
TagView-cons b (short c more e) = short c more (ap (λ x. b ∷ x) e)
TagView-cons b (differs p c d u v h e e') =
    differs (b ∷ p) c d u v h (ap (λ x. b ∷ x) e) (ap (λ x. b ∷ x) e')

tag_view : (t i : Bytes) → TagView t i
tag_view [] i = matches i refl
tag_view (c ∷ t) [] = short c t refl
tag_view (c ∷ t) (d ∷ i) = elim (Bool-cases (c == d)) [
  | inl same ↦ rw (let e : c ≡ d = ground arith in e) (TagView-cons d (tag_view t i))
  | inr other ↦ differs [] c d t i (ground arith) refl refl
]

-- Where the bytes that pass a test end.
data ScanView (f : ℕ → Bool) : Bytes → Type 0 where
  all : {i : Bytes} → AllTest f i → ScanView f i
  stops :
      {i : Bytes} (t : Bytes) (c : ℕ) (r : Bytes)
      → AllTest f t
      → f c ≡ false
      → i ≡ t ++ c ∷ r
      → ScanView f i

ScanView-cons : {f : ℕ → Bool} {i : Bytes} (b : ℕ) → f b ≡ true → ScanView f i → ScanView f (b ∷ i)
ScanView-cons b h (all hi) = all (h, hi)
ScanView-cons b h (stops t c r ht hc e) = stops (b ∷ t) c r (h, ht) hc (ap (λ x. b ∷ x) e)

scan_view : (f : ℕ → Bool) (i : Bytes) → ScanView f i
scan_view f [] = all tt
scan_view f (c ∷ i) = elim (Bool-cases (f c)) [
  | inl pass ↦ ScanView-cons c pass (scan_view f i)
  | inr fail ↦ stops [] c i tt fail refl
]

module _ {n m : NomOps} (ln : LeafLaws n) (lm : LeafLaws m) where
  tag_unique : (t i : Bytes) → n.tag t i ≡ m.tag t i
  tag_unique t i = by_view (tag_view t i)
    where
      by_view : {t i : Bytes} → TagView t i → n.tag t i ≡ m.tag t i
      by_view {t} (matches r e) = rw e (ln.tag_match t r ∙ sym (lm.tag_match t r))
      by_view {i = j} (short c more e) = rw e (ln.tag_short j c more ∙ sym (lm.tag_short j c more))
      by_view (differs p c d u v h e e') =
          rw (e, e') (ln.tag_differs p c d u v h ∙ sym (lm.tag_differs p c d u v h))

  take_unique : (k : ℕ) (i : Bytes) → n.take k i ≡ m.take k i
  take_unique k i = elim (Bool-cases (ltb (length i) k)) [
    | inl less ↦
        let h : length i < k = ground arith in ln.take_short k i h ∙ sym (lm.take_short k i h)
    | inr enough ↦
        let e : length (take k i) ≡ k = length-take k i (ground arith) in
        subst (λ j. n.take k j ≡ m.take k j) (take-append-drop k i)
          (subst (λ j. n.take j (take k i ++ drop k i) ≡ m.take j (take k i ++ drop k i)) e
            (ln.take_enough (take k i) (drop k i) ∙ sym (lm.take_enough (take k i) (drop k i))))
  ]

  take_while_unique : (f : ℕ → Bool) (i : Bytes) → n.take_while f i ≡ m.take_while f i
  take_while_unique f i = by_view (scan_view f i)
    where
      by_view : {i : Bytes} → ScanView f i → n.take_while f i ≡ m.take_while f i
      by_view {i = j} (all h) = ln.take_while_end f j h ∙ sym (lm.take_while_end f j h)
      by_view (stops t c r ht hc e) =
          rw e (ln.take_while_stop f t c r ht hc ∙ sym (lm.take_while_stop f t c r ht hc))

  take_while1_unique : (f : ℕ → Bool) (i : Bytes) → n.take_while1 f i ≡ m.take_while1 f i
  take_while1_unique f i = by_view (scan_view f i)
    where
      by_view : {i : Bytes} → ScanView f i → n.take_while1 f i ≡ m.take_while1 f i
      by_view {i = j} (all h) = ln.take_while1_end f j h ∙ sym (lm.take_while1_end f j h)
      by_view (stops [] c r ht hc e) =
          rw e (ln.take_while1_none f c r hc ∙ sym (lm.take_while1_none f c r hc))
      by_view (stops (b ∷ t) c r ht hc e) =
          rw e (ln.take_while1_stop f b t c r ht hc ∙ sym (lm.take_while1_stop f b t c r ht hc))

  char_unique : (c : ℕ) (i : Bytes) → n.char c i ≡ m.char c i
  char_unique c [] = ln.char_end c ∙ sym (lm.char_end c)
  char_unique c (d ∷ r) = elim (Bool-cases (c == d)) [
    | inl same ↦
        rw (let e : d ≡ c = ground arith in e) (ln.char_match c r ∙ sym (lm.char_match c r))
    | inr other ↦
        let h : c ≢ d = ground arith in ln.char_differs c d r h ∙ sym (lm.char_differs c d r h)
  ]

-- Two implementations that meet the laws are equal.
pub NomLaws_unique : {n m : NomOps} → NomLaws n → NomLaws m → n ≡ m
NomLaws_unique {n} {m} ln lm = λ j. record {
  tag = λ t i. tag_unique ln.leaf lm.leaf t i j;
  take = λ k i. take_unique ln.leaf lm.leaf k i j;
  take_while = λ f i. take_while_unique ln.leaf lm.leaf f i j;
  take_while1 = λ f i. take_while1_unique ln.leaf lm.leaf f i j;
  digit1 = λ i. digit1_unique i j;
  char = λ c i. char_unique ln.leaf lm.leaf c i j;
  newline = λ i. newline_unique i j;
  is_alphabetic = λ c. (ln.leaf.is_alphabetic_lem c ∙ sym (lm.leaf.is_alphabetic_lem c)) j;
  alt = λ p q r s t i.
      (ln.combinator.alt_lem p q r s t i ∙ sym (lm.combinator.alt_lem p q r s t i)) j;
  cut = λ p i. (ln.combinator.cut_lem p i ∙ sym (lm.combinator.cut_lem p i)) j;
  map = λ p f i. (ln.combinator.map_lem p f i ∙ sym (lm.combinator.map_lem p f i)) j;
  map_res = λ p f i. (ln.combinator.map_res_lem p f i ∙ sym (lm.combinator.map_res_lem p f i)) j;
  opt = λ p i. (ln.combinator.opt_lem p i ∙ sym (lm.combinator.opt_lem p i)) j;
  delimited = λ p q r i.
      (ln.combinator.delimited_lem p q r i ∙ sym (lm.combinator.delimited_lem p q r i)) j;
  separated_pair = λ p q r i.
      (ln.combinator.separated_pair_lem p q r i ∙ sym (lm.combinator.separated_pair_lem p q r i)) j;
  terminated =
      λ p q i. (ln.combinator.terminated_lem p q i ∙ sym (lm.combinator.terminated_lem p q i)) j;
  tuple = λ p q r i. (ln.combinator.tuple_lem p q r i ∙ sym (lm.combinator.tuple_lem p q r i)) j;
}
  where
    digit1_unique : (i : Bytes) → n.digit1 i ≡ m.digit1 i
    digit1_unique i =
        ln.leaf.digit1_lem i
        ∙ take_while1_unique ln.leaf lm.leaf is_digit i
        ∙ sym (lm.leaf.digit1_lem i)

    newline_unique : (i : Bytes) → n.newline i ≡ m.newline i
    newline_unique i =
        ln.leaf.newline_lem i ∙ char_unique ln.leaf lm.leaf b'\n' i ∙ sym (lm.leaf.newline_lem i)

-- What holds of the reference implementation holds of every implementation that meets the laws.
pub by_reference : {n : NomOps} (P : NomOps → Type 0) → NomLaws n → P Reference.nom → P n
by_reference P l h = subst P (NomLaws_unique Reference.nom-NomLaws l) h
