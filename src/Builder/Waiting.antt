-- ===== src/Builder/Waiting.antt =====
-- Where `ResponseBuilder::parse` asks for more bytes: what it keeps.
use mpd_protocol.Prelude.{
  ℕ, zero, suc, ◌≡◌, ◌≢◌, ◌⊎◌, inl, inr, refl, sym, ap, ◌∙◌, true, Option, none, some, [], ◌∷◌,
  length, Bytes,
}
use mpd_protocol.Crates.{Crates}
use mpd_protocol.Nom.Laws.{IResult, done, incomplete, error, failure}
use mpd_protocol.Interner.{InternedKeys}
use mpd_protocol.Parser.{
  ParsedComponent, parse, field, binary_field, error_response, end_of_frame, end_of_response,
}
use mpd_protocol.Builder.{
  ResponseState, initial, in_progress, list_in_progress, on_field, on_binary, finish_frame,
  ParseResult, ok, err, panicked, out_of_fuel, Round, continue_with, return_, ResponseBuilder,
  is_frame_in_progress, binary_round, payload, dispatch, take_message, split_message, on_parsed,
  round, parse_loop, parse_buffer,
}

module _ (c : Crates) where
  -- Bytes are left, or a response has begun.
  abbrev pub Pending : ResponseBuilder c → Bytes → Type 0
  Pending b left = (left ≢ []) ⊎ (is_frame_in_progress b.state ≡ true)

  -- What a round leaves behind: a response that has begun, or all bytes where it asks for more.
  abbrev Leaves : Bytes → Round c → Type 0
  Leaves src (continue_with b left) = is_frame_in_progress b.state ≡ true
  Leaves src (return_ (ok none) b left) = left ≡ src
  Leaves src (return_ _ b left) = Unit {0}

  binary-Leaves :
      (src : Bytes) (content : Option Bytes) (b : ResponseBuilder c) (left : Bytes)
      → Leaves src (binary_round c content b left)
  unfolding binary_round on_binary is_frame_in_progress
  binary-Leaves src none b left = tt
  binary-Leaves src (some content) b left = begun b.state
    where
      begun : (s : ResponseState) → is_frame_in_progress (on_binary content s) ≡ true
      begun initial = refl
      begun (in_progress f) = refl
      begun (list_in_progress f fs) = refl

  dispatch-Leaves :
      (src : Bytes) (p : ParsedComponent) (msg : Bytes) (b : ResponseBuilder c) (left : Bytes)
      → Leaves src (dispatch c p msg b left)
  unfolding dispatch on_field finish_frame is_frame_in_progress
  dispatch-Leaves src (field k v) msg b left = begun b.state
    where
      begun : (s : ResponseState) → is_frame_in_progress (on_field k v s) ≡ true
      begun initial = refl
      begun (in_progress f) = refl
      begun (list_in_progress f fs) = refl
  dispatch-Leaves src (binary_field n) msg b left = binary-Leaves src (payload c msg n) b left
  dispatch-Leaves src (error_response e) msg b left = tt
  dispatch-Leaves src end_of_frame msg b left = refl
  dispatch-Leaves src end_of_response msg b left = tt

  message-Leaves :
      (src : Bytes) (o : Option (Bytes × Bytes)) (p : ParsedComponent) (b : ResponseBuilder c)
      → Leaves src (take_message c o p b src)
  unfolding take_message
  message-Leaves src none p b = tt
  message-Leaves src (some (msg, left)) p b = dispatch-Leaves src p msg b left

  parsed-Leaves :
      (src : Bytes) (p : IResult ParsedComponent × InternedKeys c.set) (s : ResponseState)
      → Leaves src (on_parsed c p s src)
  unfolding on_parsed
  parsed-Leaves src (incomplete, keys) s = refl
  parsed-Leaves src (error, keys) s = tt
  parsed-Leaves src (failure, keys) s = tt
  parsed-Leaves src (done left p, keys) s = message-Leaves src (split_message c src left) p _

  round-Leaves : (b : ResponseBuilder c) (src : Bytes) → Leaves src (round c b src)
  unfolding round
  round-Leaves b src = parsed-Leaves src (parse c.nom c.set src b.fields) b.state

  abbrev follow_round :
      (ResponseBuilder c → Bytes → ParseResult × ResponseBuilder c × Bytes)
      → Round c
      → ParseResult × ResponseBuilder c × Bytes
  follow_round loop (continue_with b rest) = loop b rest
  follow_round loop (return_ r b rest) = (r, b, rest)

  after-Pending :
      (loop : ResponseBuilder c → Bytes → ParseResult × ResponseBuilder c × Bytes) (r : Round c)
      (x : ℕ) (src : Bytes) {b' : ResponseBuilder c} {left : Bytes}
      → Leaves (x ∷ src) r
      → ((b : ResponseBuilder c) (rest : Bytes)
          → is_frame_in_progress b.state ≡ true
          → loop b rest ≡ (ok none, b', left)
          → Pending b' left)
      → follow_round loop r ≡ (ok none, b', left)
      → Pending b' left
  after-Pending loop (continue_with b rest) x src begun again e = again b rest begun e
  after-Pending loop (return_ (ok none) b rest) x src same again e = inl (cc (same, e))
  after-Pending loop (return_ (ok (some response)) b rest) x src h again e = cc
  after-Pending loop (return_ (err z) b rest) x src h again e = cc
  after-Pending loop (return_ panicked b rest) x src h again e = cc
  after-Pending loop (return_ out_of_fuel b rest) x src h again e = cc

  loop-Pending :
      (fuel : ℕ) (b : ResponseBuilder c) (src : Bytes) {b' : ResponseBuilder c} {left : Bytes}
      → Pending b src
      → parse_loop c fuel b src ≡ (ok none, b', left)
      → Pending b' left
  unfolding parse_loop
  loop-Pending zero b src h e = cc
  loop-Pending (suc fuel) b [] (inl h) e = absurd (h refl)
  loop-Pending (suc fuel) b [] (inr h) e =
      inr (ap (λ t. is_frame_in_progress t.1.state) (sym e) ∙ h)
  loop-Pending (suc fuel) b (x ∷ src) h e =
      after-Pending (parse_loop c fuel) (round c b (x ∷ src)) x src (round-Leaves b (x ∷ src))
        (λ b'' rest begun e'. loop-Pending fuel b'' rest (inr begun) e') e

-- Where bytes were given and no response came, bytes are left or a response has begun.
pub parse_buffer-Pending :
    (c : Crates) (b : ResponseBuilder c) (x : ℕ) (src : Bytes) {b' : ResponseBuilder c}
    {left : Bytes}
    → parse_buffer c b (x ∷ src) ≡ (ok none, b', left)
    → Pending c b' left
unfolding parse_buffer
parse_buffer-Pending c b x src e = loop-Pending c (suc (length (x ∷ src))) b (x ∷ src) (inl cc) e
