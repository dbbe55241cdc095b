-- ===== src/Interner/HashSet.antt =====
-- `Arc<str>` as an address and a text, and the interface of `hashbrown::HashSet<Arc<str>>`: what
-- src/response.rs calls of it, with the documented laws. The set compares keys by their text.
use mpd_protocol.Prelude.{
  ℕ, ◌≡◌, refl, Option, none, some, List, [], ◌∷◌, if◌then◌else◌, equal, equal_iff, Bool-cases, inl,
  inr,
}
use mpd_protocol.Std.Utf8.{Str}

-- `Arc::clone` copies the address, so a clone points to the same text.
pub record Arc : Type 0 where
  pub addr : ℕ
  pub text : Str

pub record HashSetOps : Type 1 where
  pub Set : Type 0
  pub default : Set
  pub get : Set → Str → Option Arc
  pub insert : Set → Arc → Set

pub record HashSetLaws (h : HashSetOps) : Type 0 where
  pub get-default : (k : Str) → h.get h.default k ≡ none
  -- What `get` finds is equal to the key that was asked for.
  pub get_text : (s : h.Set) (k : Str) (a : Arc) → h.get s k ≡ some a → a.text ≡ k
  -- `insert` of a key that is not yet there.
  pub get-insert :
      (s : h.Set) (a : Arc) (k : Str)
      → h.get s a.text ≡ none
      → h.get (h.insert s a) k ≡ (if equal a.text k then some a else h.get s k)

-- An implementation by a list, for the tests: the laws can be met.
abbrev list_get : List Arc → Str → Option Arc
list_get [] k = none
list_get (a ∷ s) k = if equal a.text k then some a else list_get s k

abbrev pub list_set : HashSetOps
list_set = record { Set = List Arc; default = []; get = list_get; insert = λ s a. a ∷ s }

list_get_text : (s : List Arc) (k : Str) (a : Arc) → list_get s k ≡ some a → a.text ≡ k
list_get_text [] k a h = cc
list_get_text (b ∷ s) k a h = elim (Bool-cases (equal b.text k)) [
  | inl same ↦ let found : b ≡ a = cc (rw same at h) in rw (← found) ((equal_iff b.text k).0 same)
  | inr other ↦ list_get_text s k a (rw other at h)
]

pub list_set-HashSetLaws : HashSetLaws list_set
list_set-HashSetLaws = record {
  get-default = λ k. refl;
  get_text = list_get_text;
  get-insert = λ s a k h. refl;
}
