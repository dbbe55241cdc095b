-- ===== src/Builder/Refines/Run.antt =====
-- The loop of `ResponseBuilder::parse` over the bytes of a sequence of messages.
use mpd_protocol.Prelude.{
  ◌<◌, ◌≡◌, refl, sym, ap, ◌∙◌, subst, some, List, [], ◌∷◌, arith, length, Bytes,
}
use mpd_protocol.Std.Number.{u64_max}
use mpd_protocol.Crates.{Crates, CratesLaws, with_set, by_reference}
use mpd_protocol.Interner.{HashSetOps, HashSetLaws}
use mpd_protocol.Response.{Response}
use mpd_protocol.Parser.{
  ParsedComponent, end_of_frame, end_of_response, error_response, field, binary_field,
}
use mpd_protocol.Parser.Wire.{Message, Wire, Says}
use mpd_protocol.Parser.Complete.{Wire-Found, Unambiguous}
use mpd_protocol.Builder.{
  initial, on_field, on_binary, finish_frame, finish, finish_error, ParseResult, ok,
  ResponseBuilder, Round, continue_with, return_, dispatch, round, parse_buffer,
}
use mpd_protocol.Builder.Keeps.{Kept}
use mpd_protocol.Builder.Invariant.{
  WellFormed, Promised, on_field-WellFormed, on_binary-WellFormed, finish_frame-WellFormed,
  finish-Promised, error-Promised,
}
use mpd_protocol.Builder.Messages.{deliver, round-deliver, Wire-length}
use mpd_protocol.Builder.Progress.{follow, parse_buffer-round}
use mpd_protocol.Builder.Abstract.{
  Reply, Progress, continues, replies, advance, Replies, now, later, OnWire, stop, more,
  shown_response, progress,
}
use mpd_protocol.Builder.Refines.{
  field-advance, binary-advance, frame_end-advance, finish-advance, error-advance,
}

module _ {h : HashSetOps} where
  -- The round goes on, and shows the progress.
  record Goes (round : Round (with_set h)) (j : Bytes) (q : Progress) : Type 0 where
    builder : ResponseBuilder (with_set h)
    ends : round ≡ continue_with builder j
    shows : progress builder.state ≡ q
    keeps : WellFormed builder.state

  -- The round returns a response that shows the reply, with the builder as new.
  record Answers (round : Round (with_set h)) (j : Bytes) (y : Reply) : Type 0 where
    builder : ResponseBuilder (with_set h)
    response : Response
    ends : round ≡ return_ (ok (some response)) builder j
    shows : shown_response response ≡ y
    restarts : builder.state ≡ initial

  deliver-Goes :
      (p : ParsedComponent) (m : Message) (b : ResponseBuilder (with_set h)) (j : Bytes)
      (q : Progress)
      → Says p m
      → WellFormed b.state
      → advance m (progress b.state) ≡ continues q
      → Goes (deliver h m p b j) j q
  unfolding dispatch
  deliver-Goes (field k v) m b j q says wf =
      subst
        (λ m. advance m (progress b.state) ≡ continues q → Goes (deliver h m (field k v) b j) j q)
        (sym says)
        λ e. record {
          builder = record b { state = on_field k v b.state };
          ends = refl;
          shows = cc (field-advance k v b.state, e);
          keeps = on_field-WellFormed k v b.state wf;
        }
  deliver-Goes (binary_field len) m b j q (content, says, _) wf =
      subst
        (λ m.
          advance m (progress b.state) ≡ continues q
          → Goes (deliver h m (binary_field len) b j) j q)
        (sym says)
        λ e. record {
          builder = record b { state = on_binary content b.state };
          ends = refl;
          shows = cc (binary-advance content b.state, e);
          keeps = on_binary-WellFormed content b.state wf;
        }
  deliver-Goes end_of_frame m b j q says wf =
      subst
        (λ m. advance m (progress b.state) ≡ continues q → Goes (deliver h m end_of_frame b j) j q)
        (sym says)
        λ e. record {
          builder = record b { state = finish_frame b.state };
          ends = refl;
          shows = cc (frame_end-advance b.state, e);
          keeps = finish_frame-WellFormed b.state;
        }
  deliver-Goes end_of_response m b j q says wf =
      subst
        (λ m.
          advance m (progress b.state) ≡ continues q → Goes (deliver h m end_of_response b j) j q)
        (sym says) λ e. cc (finish-advance b.state wf, e)
  deliver-Goes (error_response x) m b j q says wf =
      subst
        (λ m.
          advance m (progress b.state) ≡ continues q
          → Goes (deliver h m (error_response x) b j) j q)
        (sym says) λ e. cc (error-advance x b.state, e)

  deliver-Answers :
      (p : ParsedComponent) (m : Message) (b : ResponseBuilder (with_set h)) (j : Bytes) (y : Reply)
      → Says p m
      → WellFormed b.state
      → advance m (progress b.state) ≡ replies y
      → Answers (deliver h m p b j) j y
  unfolding dispatch Promised Kept
  deliver-Answers end_of_response m b j y says wf =
      subst
        (λ m.
          advance m (progress b.state) ≡ replies y → Answers (deliver h m end_of_response b j) j y)
        (sym says)
        λ e. record {
          builder = record b { state = (finish b.state).1 };
          response = (finish b.state).0;
          ends = refl;
          shows = cc (finish-advance b.state wf, e);
          restarts = (finish-Promised b.state wf).0;
        }
  deliver-Answers (error_response x) m b j y says wf =
      subst
        (λ m.
          advance m (progress b.state) ≡ replies y
          → Answers (deliver h m (error_response x) b j) j y)
        (sym says)
        λ e. record {
          builder = record b { state = (finish_error x b.state).1 };
          response = (finish_error x b.state).0;
          ends = refl;
          shows = cc (error-advance x b.state, e);
          restarts = (error-Promised x b.state wf).0;
        }
  deliver-Answers (field k v) m b j y says wf =
      subst
        (λ m. advance m (progress b.state) ≡ replies y → Answers (deliver h m (field k v) b j) j y)
        (sym says) λ e. cc (field-advance k v b.state, e)
  deliver-Answers (binary_field len) m b j y (content, says, _) wf =
      subst
        (λ m.
          advance m (progress b.state) ≡ replies y
          → Answers (deliver h m (binary_field len) b j) j y)
        (sym says) λ e. cc (binary-advance content b.state, e)
  deliver-Answers end_of_frame m b j y says wf =
      subst
        (λ m. advance m (progress b.state) ≡ replies y → Answers (deliver h m end_of_frame b j) j y)
        (sym says) λ e. cc (frame_end-advance b.state, e)

-- The whole call: a response that shows the reply, the rest of the buffer, and the initial state.
pub record Delivered (c : Crates) (r : Bytes) (y : Reply)
    (out : ParseResult × ResponseBuilder c × Bytes) : Type 0 where
  pub response : Response
  pub result : out.0 ≡ ok (some response)
  pub shows : shown_response response ≡ y
  pub left : out.2 ≡ r
  pub restarts : out.1.state ≡ initial

module _ {h : HashSetOps} (laws : HashSetLaws h) where
  parse_buffer-step :
      (b : ResponseBuilder (with_set h)) (i j : Bytes)
      → length j < length i
      → length i < u64_max
      → parse_buffer (with_set h) b i
        ≡ follow laws (parse_buffer (with_set h)) (round (with_set h) b i)
  parse_buffer-step b [] j less small = absurd (omega arith)
  parse_buffer-step b (x ∷ src) j less small = parse_buffer-round laws b x src small

  -- One message at the front of the buffer.
  round-message :
      (b : ResponseBuilder (with_set h)) (i j : Bytes) (m : Message)
      → Wire i j m
      → Unambiguous m
      → length i < u64_max
      → (p : ParsedComponent) × (b' : ResponseBuilder (with_set h)) × (b'.state ≡ b.state)
        × Says p m
        × (round (with_set h) b i ≡ deliver h m p b' j)
  round-message b i j m w u small =
      let (c, found, says) = Wire-Found laws w u in
      (
        (c b.fields).0,
        record { fields = (c b.fields).1; state = b.state },
        refl,
        says b.fields,
        round-deliver h b i j c m small found w (says b.fields),
      )

  run-Delivered :
      (b : ResponseBuilder (with_set h)) (i r : Bytes) (ms : List Message) (p : Progress)
      (y : Reply)
      → OnWire r i ms
      → Replies y p ms
      → progress b.state ≡ p
      → WellFormed b.state
      → length i < u64_max
      → Delivered (with_set h) r y (parse_buffer (with_set h) b i)
  run-Delivered b i r [] p y wire rs shows wf small = elim rs [ ]
  run-Delivered b i r (m ∷ _) p y (more j _ _ w u stop) (now _ e) shows wf small =
      let (x, b', same, says, ends) = round-message b i j m w u small in
      let a =
        deliver-Answers x m b' j y says (subst WellFormed (sym same) wf)
          (ap (advance m) (ap progress same ∙ shows) ∙ e) in
      let whole : parse_buffer (with_set h) b i ≡ (ok (some a.response), a.builder, j) =
        parse_buffer-step b i j (Wire-length w) small
        ∙ ap (follow laws (parse_buffer (with_set h))) (ends ∙ a.ends) in
      rw whole (record {
        response = a.response;
        result = refl;
        shows = a.shows;
        left = refl;
        restarts = a.restarts;
      })
  run-Delivered b i r (m ∷ ms) p y (more j _ _ w u rest) (later _ _ q e rs) shows wf small =
      let (x, b', same, says, ends) = round-message b i j m w u small in
      let g =
        deliver-Goes x m b' j q says (subst WellFormed (sym same) wf)
          (ap (advance m) (ap progress same ∙ shows) ∙ e) in
      let whole : parse_buffer (with_set h) b i ≡ parse_buffer (with_set h) g.builder j =
        parse_buffer-step b i j (Wire-length w) small
        ∙ ap (follow laws (parse_buffer (with_set h))) (ends ∙ g.ends) in
      let less = Wire-length w in
      rw whole (run-Delivered g.builder j r ms q y rest rs g.shows g.keeps (omega arith))

-- Refinement: on the bytes of a sequence of messages that ends in a reply, a call of
-- `ResponseBuilder::parse` at a well-formed state returns a response that shows that reply, leaves
-- exactly the bytes behind the messages, and is ready for the next response. The bytes fit in memory,
-- and no field has the key `binary`.
pub parse_buffer-Delivered :
    {c : Crates} (b : ResponseBuilder c) (i r : Bytes) (ms : List Message) (y : Reply)
    → CratesLaws c
    → WellFormed b.state
    → OnWire r i ms
    → Replies y (progress b.state) ms
    → length i < u64_max
    → Delivered c r y (parse_buffer c b i)
parse_buffer-Delivered b i r ms y laws wf wire replied small =
    by_reference
      (λ k.
        (b : ResponseBuilder k)
        → WellFormed b.state
        → Replies y (progress b.state) ms
        → Delivered k r y (parse_buffer k b i))
      laws
      (λ set b wf replied.
        run-Delivered set b i r ms (progress b.state) y wire replied refl wf small)
      b wf replied
