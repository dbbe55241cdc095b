-- ===== src/Interner/Sharing.antt =====
-- Interned keys share their allocation: two keys with the same text have the same address.
use mpd_protocol.Prelude.{
  ◌≡◌, refl, ap, some, if◌then◌else◌, equal, equal_iff, equal_refl, Option-cases, Bool-cases, List,
  [], ◌∷◌, inl, inr, ◌∙◌,
}
use mpd_protocol.Std.Utf8.{Str}
use mpd_protocol.Interner.HashSet.{Arc, HashSetOps, HashSetLaws}
use mpd_protocol.Interner.Defs.{InternedKeys, intern_key}

-- Keys that are interned one after the other.
pub intern_all : {h : HashSetOps} → InternedKeys h → List Str → InternedKeys h
intern_all keys [] = keys
intern_all {h} keys (k ∷ ks) = intern_all (intern_key h keys k).1 ks

module _ {h : HashSetOps} (laws : HashSetLaws h) where
  -- The key that comes back has the text that was asked for.
  pub text-intern_key : (keys : InternedKeys h) (k : Str) → (intern_key h keys k).0.text ≡ k
  unfolding intern_key
  text-intern_key keys k = elim (Option-cases (h.get keys.keys k)) [
    | inl absent ↦ rw absent refl
    | inr (a, found) ↦ rw found (laws.get_text keys.keys k a found)
  ]

  -- From then on the set finds that very allocation, and what it found before it still finds.
  pub get-intern_key :
      (keys : InternedKeys h) (k j : Str)
      → h.get (intern_key h keys k).1.keys j
        ≡ (if equal k j then some (intern_key h keys k).0 else h.get keys.keys j)
  unfolding intern_key
  get-intern_key keys k j = elim (Option-cases (h.get keys.keys k)) [
    | inl absent ↦ rw absent (laws.get-insert keys.keys _ j absent)
    | inr (a, found) ↦ rw found (elim (Bool-cases (equal k j)) [
      | inl same ↦ rw same (rw (← (equal_iff k j).0 same) found)
      | inr other ↦ rw other refl
    ])
  ]

  -- A key that the set finds is the one that comes back.
  intern_key_found :
      (keys : InternedKeys h) (k : Str) (a : Arc)
      → h.get keys.keys k ≡ some a
      → (intern_key h keys k).0 ≡ a
  unfolding intern_key
  intern_key_found keys k a found = rw found

  pub intern_key-keeps :
      (keys : InternedKeys h) (k j : Str) (a : Arc)
      → h.get keys.keys k ≡ some a
      → h.get (intern_key h keys j).1.keys k ≡ some a
  intern_key-keeps keys k j a found = get-intern_key keys j k ∙ elim (Bool-cases (equal j k)) [
    | inl same ↦ rw same (ap some (intern_key_found keys j a (rw ((equal_iff j k).0 same) found)))
    | inr other ↦ rw other found
  ]

  intern_all-keeps :
      (ks : List Str) (keys : InternedKeys h) (k : Str) (a : Arc)
      → h.get keys.keys k ≡ some a
      → h.get (intern_all keys ks).keys k ≡ some a
  unfolding intern_all
  intern_all-keeps [] keys k a found = found
  intern_all-keeps (j ∷ ks) keys k a found =
      intern_all-keeps ks (intern_key h keys j).1 k a (intern_key-keeps keys k j a found)

-- A key is allocated once: whatever keys are interned after it, interning the same text again gives
-- the very same allocation, address and text.
pub intern_key-shares :
    {h : HashSetOps} (keys : InternedKeys h) (k : Str) (ks : List Str) (laws : HashSetLaws h)
    → (intern_key h (intern_all (intern_key h keys k).1 ks) k).0 ≡ (intern_key h keys k).0
intern_key-shares {h} keys k ks laws =
    intern_key_found laws (intern_all (intern_key h keys k).1 ks) k (intern_key h keys k).0 (
      intern_all-keeps laws ks (intern_key h keys k).1 k (intern_key h keys k).0
        (get-intern_key laws keys k k ∙ rw (equal_refl k)))
