-- ===== src/Builder/Messages.antt =====
-- A round of the loop in terms of the message that it reads: the arithmetic on lengths and the
-- cutting of the buffer never fail, and a binary section is stored byte for byte.
use mpd_protocol.Prelude.{
  ◌+◌, ◌<◌, ◌≡◌, refl, sym, ap, subst, ◌∙◌, some, [], ◌∷◌, ◌++◌, append_assoc, arith, length,
  length-append, Bytes, codes,
}
use mpd_protocol.Nom.Laws.{done}
use mpd_protocol.Nom.Reference.{nom}
use mpd_protocol.Crates.{with_set}
use mpd_protocol.BytesMut.{list_bytes-BytesLaws}
use mpd_protocol.Std.Number.{u64_max}
use mpd_protocol.Interner.{HashSetOps, InternedKeys}
use mpd_protocol.Parser.{ParsedComponent, binary_field, Component, component, parse}
use mpd_protocol.Parser.Wire.{
  Message, frame_end, response_end, ack, pair, blob, Wire, ok_line, list_ok_line, ack_line,
  binary_section, field_line, Says, ack_bytes, blob_bytes, pair_bytes,
}
use mpd_protocol.Builder.{
  ResponseBuilder, Round, continue_with, on_binary, payload, dispatch, split_message, take_message,
  on_parsed, round, checked_sub, checked_add,
}

-- A message's bytes: how they are cut off the input, and where a binary section's content stands.
record Cut (i r : Bytes) (m : Message) : Type 0 where
  msg : Bytes
  split : i ≡ msg ++ r
  not_empty : 0 < length msg

Wire-Cut : {i r : Bytes} {m : Message} → Wire i r m → Cut i r m
Wire-Cut (ok_line e) = record { msg = codes "OK\n"; split = e; not_empty = omega arith }
Wire-Cut (list_ok_line e) = record { msg = codes "list_OK\n"; split = e; not_empty = omega arith }
Wire-Cut (ack_line _ code index command message _ _ _ _ e) = record {
  msg = ack_bytes code index command message [];
  split = e ∙ simp append_assoc;
  not_empty = omega arith;
}
Wire-Cut (binary_section digits content _ e) = record {
  msg = blob_bytes digits content [];
  split = e ∙ simp append_assoc;
  not_empty = omega arith;
}
Wire-Cut (field_line key value _ _ _ _ e) = record {
  msg = pair_bytes key value [];
  split = e ∙ simp append_assoc;
  not_empty = omega (arith, length-append {0} key (codes ": " ++ (value ++ b'\n' ∷ [])));
}

-- The bytes before the rest.
pub Wire-prefix : {i r : Bytes} {m : Message} → Wire i r m → (msg : Bytes) × (i ≡ msg ++ r)
Wire-prefix w = let cut = Wire-Cut w in (cut.msg, cut.split)

-- More input stands behind the rest.
pub Wire-extend : {i r : Bytes} {m : Message} (x : Bytes) → Wire i r m → Wire (i ++ x) (r ++ x) m
Wire-extend x (ok_line e) = ok_line (rw e)
Wire-extend x (list_ok_line e) = list_ok_line (rw e)
Wire-extend x (ack_line a code index command message p q s t e) =
    ack_line a code index command message p q s t (rw e (simp append_assoc))
Wire-extend x (binary_section digits content p e) =
    binary_section digits content p (rw e (simp append_assoc))
Wire-extend x (field_line key value v p q s e) =
    field_line key value v p q s (rw e (simp append_assoc))

-- Each message takes at least one byte.
pub Wire-length : {i r : Bytes} {m : Message} → Wire i r m → length r < length i
Wire-length {r = r} w =
    let cut = Wire-Cut w in
    omega (arith, ap length cut.split, length-append {0} cut.msg r, cut.not_empty)

within_blob :
    (digits content r : Bytes)
    → length (blob_bytes digits content r) < u64_max
    → length content < u64_max
within_blob digits content r small = omega (
  arith,
  length-append {0} digits (b'\n' ∷ (content ++ b'\n' ∷ r)),
  length-append {0} content (b'\n' ∷ r),
)

module _ (h : HashSetOps) where
  -- What a round does with a message, with the buffer already cut.
  abbrev pub deliver :
      Message → ParsedComponent → ResponseBuilder (with_set h) → Bytes → Round (with_set h)
  deliver (blob content) p b r = continue_with (record b { state = on_binary content b.state }) r
  deliver _ p b r = dispatch (with_set h) p [] b r

  split_length : (msg r : Bytes) → checked_sub (length (msg ++ r)) (length r) ≡ some (length msg)
  split_length msg r = ground (arith, length-append {0} msg r)

  split_message_lem : (msg r : Bytes) → split_message (with_set h) (msg ++ r) r ≡ some (msg, r)
  unfolding split_message
  split_message_lem msg r = rw (split_length msg r) (list_bytes-BytesLaws.split_to_within msg r)

  -- The message, cut where its content starts.
  payload_cut :
      (header content : Bytes)
      → length content < u64_max
      → payload (with_set h) (header ++ (content ++ b'\n' ∷ [])) (length content) ≡ some content
  unfolding payload
  payload_cut header content small =
      let body = content ++ b'\n' ∷ [] in
      let add : checked_add (length content) 1 ≡ some (length content + 1) = ground arith in
      let sub : checked_sub (length (header ++ body)) (length content + 1) ≡ some (length header) =
        ground (arith, length-append {0} header body, length-append {0} content (b'\n' ∷ [])) in
      rw (add, sub)
        (rw (list_bytes-BytesLaws.advance_within header body)
          (ap some (list_bytes-BytesLaws.truncate_within content (b'\n' ∷ []))))

  payload_lem :
      (digits content : Bytes)
      → length content < u64_max
      → payload (with_set h) (blob_bytes digits content []) (length content) ≡ some content
  payload_lem digits content small =
      let header = codes "binary: " ++ (digits ++ b'\n' ∷ []) in
      let same : header ++ (content ++ b'\n' ∷ []) ≡ blob_bytes digits content [] =
        simp append_assoc in
      subst (λ msg. payload (with_set h) msg (length content) ≡ some content) same
        (payload_cut header content small)

  -- The bytes of a binary section hold its content where the handler looks for it.
  abbrev HoldsPayload : Message → Bytes → Type 0
  HoldsPayload (blob content) msg = payload (with_set h) msg (length content) ≡ some content
  HoldsPayload _ msg = Unit

  Wire-HoldsPayload :
      {i r : Bytes} {m : Message} (w : Wire i r m)
      → length i < u64_max
      → HoldsPayload m (Wire-Cut w).msg
  unfolding Wire-Cut
  Wire-HoldsPayload {r = r} (binary_section digits content n e) small =
      payload_lem digits content (within_blob digits content r (omega (arith, ap length e)))
  Wire-HoldsPayload (ok_line e) small = tt
  Wire-HoldsPayload (list_ok_line e) small = tt
  Wire-HoldsPayload (ack_line _ _ _ _ _ _ _ _ _ e) small = tt
  Wire-HoldsPayload (field_line _ _ _ _ _ _ e) small = tt

  parse-done :
      (i : Bytes) {r : Bytes} {c : Component nom h} (keys : InternedKeys h)
      → component nom h i ≡ done r c
      → parse nom h i keys ≡ (done r (c keys).0, (c keys).1)
  unfolding parse
  parse-done i keys e = rw e

  dispatch-deliver :
      (m : Message) (p : ParsedComponent) (msg : Bytes) (b : ResponseBuilder (with_set h))
      (r : Bytes)
      → HoldsPayload m msg
      → Says p m
      → dispatch (with_set h) p msg b r ≡ deliver m p b r
  unfolding dispatch
  dispatch-deliver (blob content) (binary_field len) msg b r holds (content', same, e) =
      let q : content' ≡ content = cc same in
      rw (let l : len ≡ length content = sym e ∙ ap length q in l, holds)
  dispatch-deliver (blob content) _ msg b r holds says = cc
  dispatch-deliver frame_end (binary_field len) msg b r holds (content', same, e) = cc same
  dispatch-deliver response_end (binary_field len) msg b r holds (content', same, e) = cc same
  dispatch-deliver (ack a) (binary_field len) msg b r holds (content', same, e) = cc same
  dispatch-deliver (pair k v) (binary_field len) msg b r holds (content', same, e) = cc same
  dispatch-deliver _ _ msg b r holds says = refl

  -- A round over an accepted message cuts off exactly its bytes, and delivers it.
  pub round-deliver :
      (b : ResponseBuilder (with_set h)) (src r : Bytes) (c : Component nom h) (m : Message)
      → length src < u64_max
      → component nom h src ≡ done r c
      → Wire src r m
      → Says (c b.fields).0 m
      → round (with_set h) b src
        ≡ deliver m (c b.fields).0 (record { fields = (c b.fields).1; state = b.state }) r
  unfolding round
  round-deliver b src r c m small accepted w says =
      let cut = Wire-Cut w in
      let b' : ResponseBuilder (with_set h) = record { fields = (c b.fields).1; state = b.state } in
      let split : split_message (with_set h) src r ≡ some (cut.msg, r) =
        subst (λ s. split_message (with_set h) s r ≡ some (cut.msg, r)) (sym cut.split)
          (split_message_lem cut.msg r) in
      ap (λ parsed. on_parsed (with_set h) parsed b.state src) (parse-done src b.fields accepted)
      ∙ ap (λ parts. take_message (with_set h) parts (c b.fields).0 b' src) split
      ∙ dispatch-deliver m (c b.fields).0 cut.msg b' r (Wire-HoldsPayload w small) says
