-- ===== src/Parser/Accepts.antt =====
-- The whole parser against the wire format: what `ParsedComponent::parse` accepts is a message, and
-- the component says what the message says.
use mpd_protocol.Prelude.{◌≡◌, inl, inr, refl, sym, ap, Bytes, codes, length}
use mpd_protocol.Nom.Laws.{
  IResult, done, incomplete, error, failure, Parser, and_then, or_else, NomOps, NomLaws,
}
use mpd_protocol.Nom.Reference.{nom, tag}
use mpd_protocol.Nom.Unique.{by_reference}
use mpd_protocol.Interner.{HashSetOps, HashSetLaws, InternedKeys}
use mpd_protocol.Interner.Sharing.{text-intern_key}
use mpd_protocol.Parser.{
  ParsedComponent, end_of_frame, end_of_response, error_response, binary_field, parse_error,
  into_owned_error, parse_binary_field, key_value_field, Component, plain, interned_field,
  component, apply, parse,
}
use mpd_protocol.Parser.Wire.{
  Message, frame_end, response_end, ack, pair, blob, Wire, ok_line, list_ok_line, Says,
}
use mpd_protocol.Parser.Inversion.{and_then-eq-done, or_else-eq-done, tag-eq-done, done-injective}
use mpd_protocol.Parser.Sound.{
  parse_error-eq-done, parse_binary_field-eq-done, key_value_field-eq-done,
}

module _ {h : HashSetOps} (laws : HashSetLaws h) where
  -- The component `c`, read off `i` with the rest `r`, says what a message of the format says.
  abbrev Faithful : Bytes → Bytes → Component nom h → Type 0
  Faithful i r c = (m : Message) × Wire i r m × ((keys : InternedKeys h) → Says (c keys).0 m)

  -- One alternative: a parser, and what is made of its output.
  abbrev alternative : {A : Type 0} → Parser A → (A → Component nom h) → Parser (Component nom h)
  alternative p f i = and_then (p i) (λ a rest. done rest (f a))

  record IsSound (p : Parser (Component nom h)) : Type 0 where
    at : (i : Bytes) {r : Bytes} {c : Component nom h} → p i ≡ done r c → Faithful i r c

  IsSound-alternative :
      {A : Type 0} (p : Parser A) (f : A → Component nom h)
      → ((i r : Bytes) (a : A) → p i ≡ done r a → Faithful i r (f a))
      → IsSound (alternative p f)
  IsSound-alternative p f sound = record {
    at = λ i e.
        let (j, a, parsed, made) = and_then-eq-done (p i) (λ a rest. done rest (f a)) e in
        let (same, out) = done-injective made in rw (← out) (sound i _ a (rw same at parsed));
  }

  IsSound-or_else :
      (p q : Parser (Component nom h)) → IsSound p → IsSound q → IsSound (λ i. or_else (p i) (q i))
  IsSound-or_else p q hp hq = record {
    at = λ i e. elim (or_else-eq-done (p i) (q i) e) [ inl e ↦ hp.at i e | inr e ↦ hq.at i e ];
  }

  IsSound-field : IsSound (alternative (key_value_field nom) (interned_field nom h))
  IsSound-field = IsSound-alternative (key_value_field nom) (interned_field nom h) λ i r (k, v) e. (
    pair k v,
    key_value_field-eq-done i e,
    λ keys. ap (λ t. pair t v) (sym (text-intern_key laws keys k)),
  )

  component-IsSound : IsSound (component nom h)
  unfolding component
  component-IsSound =
      IsSound-or_else _ _
        (IsSound-alternative (tag (codes "OK\n")) (λ _. plain nom h end_of_response)
          λ i r a e. (response_end, ok_line (tag-eq-done (codes "OK\n") i e), λ keys. refl))
        (IsSound-or_else _ _
          (IsSound-alternative (tag (codes "list_OK\n")) (λ _. plain nom h end_of_frame)
            λ i r a e.
              (frame_end, list_ok_line (tag-eq-done (codes "list_OK\n") i e), λ keys. refl))
          (IsSound-or_else _ _
            (IsSound-alternative (parse_error nom)
              (λ e. plain nom h (error_response (into_owned_error e)))
              λ i r a e. (ack (into_owned_error a), parse_error-eq-done i e, λ keys. refl))
            (IsSound-or_else _ _
              (IsSound-alternative (parse_binary_field nom)
                (λ b. plain nom h (binary_field (length b)))
                λ i r a e. (blob a, parse_binary_field-eq-done i e, λ keys. (a, refl, refl)))
              IsSound-field)))

  -- An accepted component is read off a message of the wire format, with the rest behind it.
  pub component_sound :
      (i r : Bytes) (c : Component nom h)
      → component nom h i ≡ done r c
      → (m : Message) × Wire i r m × ((keys : InternedKeys h) → Says (c keys).0 m)
  component_sound i r c e = component-IsSound.at i e

  apply-eq-done :
      (keys : InternedKeys h) (res : IResult (Component nom h)) {r : Bytes} {p : ParsedComponent}
      → (apply nom h keys res).0 ≡ done r p
      → (c : Component nom h) × (res ≡ done r c) × (p ≡ (c keys).0)
  apply-eq-done keys (done j c) e =
      let (same, out) = done-injective e in (c, ap (λ x. done x c) same, sym out)
  apply-eq-done keys incomplete e = cc
  apply-eq-done keys error e = cc
  apply-eq-done keys failure e = cc

  parse_sound_reference :
      (i r : Bytes) (keys : InternedKeys h) (p : ParsedComponent)
      → (parse nom h i keys).0 ≡ done r p
      → (m : Message) × Wire i r m × Says p m
  unfolding parse
  parse_sound_reference i r keys p e =
      let (c, accepted, out) = apply-eq-done keys (component nom h i) e in
      let (m, wire, says) = component_sound i r c accepted in (m, wire, rw out (says keys))

-- With any `nom` that does what it documents: when the parser accepts an input with a rest, the
-- input is a message of the wire format followed by that rest, and the component says what the
-- message says.
pub parse_sound :
    {n : NomOps} {h : HashSetOps} (i r : Bytes) (keys : InternedKeys h) (p : ParsedComponent)
    → NomLaws n
    → HashSetLaws h
    → (parse n h i keys).0 ≡ done r p
    → (m : Message) × Wire i r m × Says p m
parse_sound {h = h} i r keys p ln lh e =
    by_reference (λ k. (parse k h i keys).0 ≡ done r p → (m : Message) × Wire i r m × Says p m) ln
      (parse_sound_reference lh i r keys p) e
