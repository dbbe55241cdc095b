-- ===== src/Parser/Complete.antt =====
-- The other direction of `Parser/Accepts`: messages of the wire format against the whole parser.
use mpd_protocol.Prelude.{
  ℕ, ◌≡◌, ◌≢◌, ◌⊎◌, inl, inr, refl, sym, ap, ◌∙◌, false, [], ◌∷◌, ◌++◌, arith, ◌==◌, Bool-cases,
  length, AllTest, Bytes, codes,
}
use mpd_protocol.Std.Utf8.{Str}
use mpd_protocol.Nom.Laws.{NomOps, NomLaws, IResult, done, error, and_then, or_else}
use mpd_protocol.Nom.Reference.{nom, tag}
use mpd_protocol.Nom.Unique.{by_reference}
use mpd_protocol.Interner.{HashSetOps, HashSetLaws, InternedKeys}
use mpd_protocol.Interner.Sharing.{text-intern_key}
use mpd_protocol.Parser.{
  ParsedComponent, end_of_frame, end_of_response, error_response, binary_field, RawError,
  into_owned_error, parse_error, parse_binary_field, key_value_field, Component, binary_prefix,
  plain, interned_field, component, parse,
}
use mpd_protocol.Parser.Wire.{
  Message, pair, key_byte, IsLine, IsNumeral, Wire, ok_line, list_ok_line, ack_line, binary_section,
  field_line, Says, pair_bytes, blob_bytes,
}
use mpd_protocol.Parser.Evaluate.{parse_error-done, parse_binary_field-done, key_value_field-done}

-- A tag with a byte that no key holds is not found where a key and a colon stand.
tag_key :
    (body key : Bytes) (z : ℕ) (t r : Bytes)
    → AllTest key_byte body
    → key_byte z ≡ false
    → (z ≢ b':') ⊎ (key ≢ body)
    → AllTest key_byte key
    → tag (body ++ z ∷ t) (key ++ b':' ∷ r) ≡ error
unfolding tag
tag_key [] [] z t r hb hz (inl ne) hk = ground arith
tag_key [] [] z t r hb hz (inr ne) hk = absurd (ne refl)
tag_key [] (k ∷ key) z t r hb hz h (hk, hks) = ground arith
tag_key (b ∷ body) [] z t r (hb, hbs) hz h hk = ground arith
tag_key (b ∷ body) (k ∷ key) z t r (hb, hbs) hz h (hk, hks) = elim (Bool-cases (b == k)) [
  | inl same ↦ rw same (rw (tag_key body key z t r hbs hz (tails (ground arith) h) hks) refl)
  | inr differ ↦ rw differ refl
]
  where
    tails : b ≡ k → (z ≢ b':') ⊎ ((k ∷ key) ≢ (b ∷ body)) → (z ≢ b':') ⊎ (key ≢ body)
    tails e (inl ne) = inl ne
    tails e (inr ne) = inr (λ same. ne (cc (e, same)))

-- The key `binary` announces a binary section, so it is not free for a field.
unfoldable pub Unambiguous : Message → Type 0
Unambiguous (pair k v) = k ≢ codes "binary"
Unambiguous _ = Unit {0}

module _ {h : HashSetOps} (laws : HashSetLaws h) where
  -- The component that the parser finds, and what it says.
  abbrev Found : Bytes → Bytes → Message → Type 0
  Found i r m =
      (c : Component nom h) × (component nom h i ≡ done r c)
      × ((keys : InternedKeys h) → Says (c keys).0 m)

  -- The alternatives of the parser, in order.
  abbrev found_as : {A : Type 0} → (A → Component nom h) → IResult A → IResult (Component nom h)
  found_as f res = and_then res (λ a rest. done rest (f a))

  abbrev alternatives : Bytes → IResult (Component nom h)
  alternatives i = or_else (found_as (λ _. plain nom h end_of_response) (tag (codes "OK\n") i)) (
      or_else (found_as (λ _. plain nom h end_of_frame) (tag (codes "list_OK\n") i)) (
        or_else
          (found_as (λ e. plain nom h (error_response (into_owned_error e))) (parse_error nom i))
          (or_else
            (found_as (λ bin. plain nom h (binary_field (length bin))) (parse_binary_field nom i))
            (found_as (interned_field nom h) (key_value_field nom i)))))

  component-alternatives : (i : Bytes) → component nom h i ≡ alternatives i
  unfolding component
  component-alternatives i = refl

  -- Before a key, the tags of the errors and of the binary sections fail, and so do their parsers.
  parse_error_key : (i : Bytes) → tag (codes "ACK ") i ≡ error → parse_error nom i ≡ error
  unfolding parse_error
  parse_error_key i e = rw e refl

  parse_binary_field_key :
      (i : Bytes) → tag (codes "binary: ") i ≡ error → parse_binary_field nom i ≡ error
  unfolding parse_binary_field binary_prefix
  parse_binary_field_key i e = rw e refl

  pair-Found :
      (key value : Bytes) (v : Str) (r : Bytes)
      → key ≢ []
      → AllTest key_byte key
      → IsLine value v
      → key ≢ codes "binary"
      → component nom h (pair_bytes key value r) ≡ done r (interned_field nom h (key, v))
  pair-Found key value v r ne all line free =
      let rest = b' ' ∷ (value ++ b'\n' ∷ r) in
      let i = pair_bytes key value r in
      let ok_fails =
        tag_key (codes "OK") key b'\n' [] rest (ground arith) refl (inl (omega arith)) all in
      let list_fails =
        tag_key (codes "list_OK") key b'\n' [] rest (ground arith) refl (inl (omega arith)) all in
      let ack_fails =
        parse_error_key i
          (tag_key (codes "ACK") key b' ' [] rest (ground arith) refl (inl (omega arith)) all) in
      let binary_fails =
        parse_binary_field_key i
          (tag_key (codes "binary") key b':' (b' ' ∷ []) rest (ground arith) refl (inr free) all) in
      component-alternatives i
      ∙ rw
          (
            ok_fails,
            list_fails,
            ack_fails,
            binary_fails,
            key_value_field-done key value v r ne all line,
          )
          refl

  blob-Found :
      (digits content r : Bytes)
      → IsNumeral digits (length content)
      → component nom h (blob_bytes digits content r)
        ≡ done r (plain nom h (binary_field (length content)))
  unfolding tag parse_error
  blob-Found digits content r n =
      component-alternatives (blob_bytes digits content r)
      ∙ rw (parse_binary_field-done digits content r n) refl

  pub Wire-Found : {i r : Bytes} {m : Message} → Wire i r m → Unambiguous m → Found i r m
  unfolding component tag Unambiguous parse_error into_owned_error
  Wire-Found {i} {r} (ok_line e) u =
      (plain nom h end_of_response, ap (component nom h) e, λ keys. refl)
  Wire-Found {i} {r} (list_ok_line e) u =
      (plain nom h end_of_frame, ap (component nom h) e, λ keys. refl)
  Wire-Found {i} {r} (ack_line a code index command message p q s t e) u =
      let raw : RawError = record {
        code = a.code;
        command_index = a.command_index;
        current_command = a.current_command;
        message = a.message;
      } in
      (
        plain nom h (error_response a),
        ap (component nom h) e
            ∙ rw (parse_error-done code index command message raw r p q s t) refl,
        λ keys. refl,
      )
  Wire-Found {i} {r} (binary_section digits content p e) u = (
    plain nom h (binary_field (length content)),
    ap (component nom h) e ∙ blob-Found digits content r p,
    λ keys. (content, refl, refl),
  )
  Wire-Found {i} {r} (field_line key value v p q s e) u = (
    interned_field nom h (key, v),
    ap (component nom h) e ∙ pair-Found key value v r p q s u,
    λ keys. ap (λ t. pair t v) (sym (text-intern_key laws keys key)),
  )

-- With any `nom` that does what it documents: the parser accepts every message of the wire format at
-- the start of the input, except a field with the key `binary`, and returns a component that says
-- what the message says, and the input behind it.
pub parse_complete :
    {n : NomOps} {h : HashSetOps} (i r : Bytes) (m : Message) (keys : InternedKeys h)
    → NomLaws n
    → HashSetLaws h
    → Wire i r m
    → Unambiguous m
    → (p : ParsedComponent) × ((parse n h i keys).0 ≡ done r p) × Says p m
parse_complete {h = h} i r m keys ln lh w u =
    by_reference (λ k. (p : ParsedComponent) × ((parse k h i keys).0 ≡ done r p) × Says p m) ln
      (let (c, found, says) = Wire-Found lh w u in
        ((c keys).0, unfold parse in rw found refl, says keys))
