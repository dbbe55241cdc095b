-- ===== src/Builder/Progress.antt =====
-- The loop of `ResponseBuilder::parse` ends, within its fuel and without a panic: every round that
-- goes on takes a message off the buffer.
use mpd_protocol.Prelude.{
  ℕ, zero, suc, none, some, ◌≤◌, ◌<◌, ◌≡◌, ◌≢◌, ◌⊎◌, inl, inr, refl, sym, ◌∙◌, [], ◌∷◌, arith,
  length, Bytes,
}
use mpd_protocol.Nom.Laws.{IResult, done, incomplete, error, failure}
use mpd_protocol.Nom.Reference.{nom}
use mpd_protocol.Errors.{invalid_message}
use mpd_protocol.Crates.{Crates, CratesLaws, with_set, by_reference}
use mpd_protocol.Std.Number.{u64_max}
use mpd_protocol.Interner.{HashSetOps, HashSetLaws}
use mpd_protocol.Parser.{
  ParsedComponent, end_of_frame, end_of_response, error_response, field, binary_field, Component,
  component, parse,
}
use mpd_protocol.Parser.Accepts.{component_sound}
use mpd_protocol.Parser.Wire.{Message, frame_end, response_end, ack, pair, blob, Wire, Says}
use mpd_protocol.Builder.{
  ParseResult, ok, err, panicked, out_of_fuel, ResponseBuilder, Round, continue_with, return_,
  dispatch, round, parse_loop, parse_buffer,
}
use mpd_protocol.Builder.Messages.{deliver, round-deliver, Wire-length}

-- No more bytes are left than were given, and fewer with a response.
abbrev pub Leaves : Bytes → ParseResult → Bytes → Type 0
Leaves src (ok (some response)) left = length left < length src
Leaves src _ left = length left ≤ length src

-- The result is no panic, the fuel was enough, and bytes are left as they should be.
abbrev pub Finishes : {B : Type 0} → Bytes → ParseResult × B × Bytes → Type 0
Finishes src (result, b, left) =
    (result ≢ panicked) × (result ≢ out_of_fuel) × Leaves src result left

longer-Leaves :
    (s src : Bytes) (result : ParseResult) (left : Bytes)
    → length s < length src
    → Leaves s result left
    → Leaves src result left
longer-Leaves s src (ok (some response)) left less h = omega arith
longer-Leaves s src (ok none) left less h = omega arith
longer-Leaves s src (err e) left less h = omega arith
longer-Leaves s src panicked left less h = omega arith
longer-Leaves s src out_of_fuel left less h = omega arith

module _ {h : HashSetOps} (laws : HashSetLaws h) where
  -- What a round can do: ask for more input, refuse the input, or deliver a message.
  pub data RoundView (b : ResponseBuilder (with_set h)) (src : Bytes) : Type 0 where
    waits :
        component nom h src ≡ incomplete
        → round (with_set h) b src ≡ return_ (ok none) b src
        → RoundView b src
    refuses :
        (component nom h src ≡ error) ⊎ (component nom h src ≡ failure)
        → round (with_set h) b src ≡ return_ (err invalid_message) b src
        → RoundView b src
    delivers :
        (r : Bytes) (c : Component nom h) (m : Message)
        → component nom h src ≡ done r c
        → Wire src r m
        → Says (c b.fields).0 m
        → round (with_set h) b src
          ≡ deliver h m (c b.fields).0 (record { fields = (c b.fields).1; state = b.state }) r
        → RoundView b src

  round-waits :
      (b : ResponseBuilder (with_set h)) (src : Bytes)
      → component nom h src ≡ incomplete
      → round (with_set h) b src ≡ return_ (ok none) b src
  unfolding round parse
  round-waits b src e = rw e

  pub round-refuses :
      (b : ResponseBuilder (with_set h)) (src : Bytes)
      → (component nom h src ≡ error) ⊎ (component nom h src ≡ failure)
      → round (with_set h) b src ≡ return_ (err invalid_message) b src
  unfolding round parse
  round-refuses b src (inl e) = rw e
  round-refuses b src (inr e) = rw e

  pub round_view :
      (b : ResponseBuilder (with_set h)) (src : Bytes) → length src < u64_max → RoundView b src
  round_view b src small = by_result (component nom h src) refl
    where
      by_result : (res : IResult (Component nom h)) → component nom h src ≡ res → RoundView b src
      by_result (done r c) e =
          let (m, w, says) = component_sound laws src r c e in
          delivers r c m e w (says b.fields) (round-deliver h b src r c m small e w (says b.fields))
      by_result incomplete e = waits e (round-waits b src e)
      by_result error e = refuses (inl e) (round-refuses b src (inl e))
      by_result failure e = refuses (inr e) (round-refuses b src (inr e))

  -- A round ends well: it goes on with a shorter buffer, or returns without a panic.
  abbrev EndsWell : Bytes → Round (with_set h) → Type 0
  EndsWell src (continue_with b' src') = length src' < length src
  EndsWell src (return_ r b' src') = (r ≢ panicked) × (r ≢ out_of_fuel) × Leaves src r src'

  deliver-EndsWell :
      (m : Message) (p : ParsedComponent) (b : ResponseBuilder (with_set h)) (r src : Bytes)
      → Says p m
      → length r < length src
      → EndsWell src (deliver h m p b r)
  unfolding dispatch
  deliver-EndsWell (blob content) _ b r src says less = less
  deliver-EndsWell frame_end (binary_field len) b r src (content', same, e) less = cc same
  deliver-EndsWell response_end (binary_field len) b r src (content', same, e) less = cc same
  deliver-EndsWell (ack a) (binary_field len) b r src (content', same, e) less = cc same
  deliver-EndsWell (pair k v) (binary_field len) b r src (content', same, e) less = cc same
  deliver-EndsWell _ (field k v) b r src says less = less
  deliver-EndsWell _ end_of_frame b r src says less = less
  deliver-EndsWell _ (error_response e) b r src says less = (cc, cc, omega arith)
  deliver-EndsWell _ end_of_response b r src says less = (cc, cc, omega arith)

  pub round-EndsWell :
      (b : ResponseBuilder (with_set h)) (src : Bytes)
      → length src < u64_max
      → EndsWell src (round (with_set h) b src)
  round-EndsWell b src small = by_view (round_view b src small)
    where
      by_view : RoundView b src → EndsWell src (round (with_set h) b src)
      by_view (waits e ends) = rw ends (cc, cc, omega arith)
      by_view (refuses e ends) = rw ends (cc, cc, omega arith)
      by_view (delivers r c m e w says ends) =
          rw ends (deliver-EndsWell m (c b.fields).0 _ r src says (Wire-length w))

  -- What follows a round, with the loop's rest given.
  abbrev pub follow :
      (ResponseBuilder (with_set h) → Bytes → ParseResult × ResponseBuilder (with_set h) × Bytes)
      → Round (with_set h)
      → ParseResult × ResponseBuilder (with_set h) × Bytes
  follow loop (continue_with b src) = loop b src
  follow loop (return_ r b src) = (r, b, src)

  loop-follow :
      (fuel : ℕ) (b : ResponseBuilder (with_set h)) (x : ℕ) (src : Bytes)
      → parse_loop (with_set h) (suc fuel) b (x ∷ src)
        ≡ follow (parse_loop (with_set h) fuel) (round (with_set h) b (x ∷ src))
  unfolding parse_loop
  loop-follow fuel b x src = by_round (round (with_set h) b (x ∷ src))
    where
      by_round :
          (r : Round (with_set h))
          → elim r [
            | continue_with b' src' ↦ parse_loop (with_set h) fuel b' src'
            | return_ r b' src' ↦ (r, b', src')
          ]
            ≡ follow (parse_loop (with_set h) fuel) r
      by_round (continue_with b' src') = refl
      by_round (return_ r b' src') = refl

  follow_same :
      (src : Bytes)
      (f g : ResponseBuilder (with_set h)
        → Bytes
        → ParseResult × ResponseBuilder (with_set h) × Bytes)
      (r : Round (with_set h))
      → EndsWell src r
      → ((b : ResponseBuilder (with_set h)) (s : Bytes) → length s < length src → f b s ≡ g b s)
      → follow f r ≡ follow g r
  follow_same src f g (continue_with b s) less same = same b s less
  follow_same src f g (return_ r b s) ends same = refl

  -- More fuel than bytes is enough: beyond that the fuel makes no difference.
  pub loop_fuel :
      (f g : ℕ) (b : ResponseBuilder (with_set h)) (src : Bytes)
      → length src < f
      → length src < g
      → length src < u64_max
      → parse_loop (with_set h) f b src ≡ parse_loop (with_set h) g b src
  loop_fuel zero g b src hf hg small = absurd (omega arith)
  loop_fuel (suc f) zero b src hf hg small = absurd (omega arith)
  loop_fuel (suc f) (suc g) b [] hf hg small = unfold parse_loop in refl
  loop_fuel (suc f) (suc g) b (x ∷ src) hf hg small =
      loop-follow f b x src
      ∙ follow_same (x ∷ src) (parse_loop (with_set h) f) (parse_loop (with_set h) g)
          (round (with_set h) b (x ∷ src)) (round-EndsWell b (x ∷ src) small)
          (λ b' s less. loop_fuel f g b' s (omega arith) (omega arith) (omega arith))
      ∙ sym (loop-follow g b x src)

  -- The loop at a buffer that is not empty: one round, and then the loop again.
  pub parse_buffer-round :
      (b : ResponseBuilder (with_set h)) (x : ℕ) (src : Bytes)
      → length (x ∷ src) < u64_max
      → parse_buffer (with_set h) b (x ∷ src)
        ≡ follow (parse_buffer (with_set h)) (round (with_set h) b (x ∷ src))
  parse_buffer-round b x src small =
      unfold parse_buffer in
      loop-follow (suc (length src)) b x src
      ∙ follow_same (x ∷ src) (parse_loop (with_set h) (suc (length src)))
          (λ b' s. parse_loop (with_set h) (suc (length s)) b' s) (round (with_set h) b (x ∷ src))
          (round-EndsWell b (x ∷ src) small)
          (λ b' s less.
            loop_fuel (suc (length src)) (suc (length s)) b' s (omega arith) (omega arith)
              (omega arith))

  loop-Finishes :
      (fuel : ℕ) (b : ResponseBuilder (with_set h)) (src : Bytes)
      → length src < fuel
      → length src < u64_max
      → Finishes src (parse_loop (with_set h) fuel b src)
  loop-Finishes zero b src enough small = absurd (omega arith)
  loop-Finishes (suc f) b [] enough small = unfold parse_loop in (cc, cc, omega arith)
  loop-Finishes (suc f) b (x ∷ src) enough small = rw (loop-follow f b x src) (
      by_round (round (with_set h) b (x ∷ src)) (round-EndsWell b (x ∷ src) small)
        (λ b' s less. loop-Finishes f b' s (omega arith) (omega arith)))
    where
      by_round :
          (r : Round (with_set h))
          → EndsWell (x ∷ src) r
          → ((b : ResponseBuilder (with_set h)) (s : Bytes)
              → length s < length (x ∷ src)
              → Finishes s (parse_loop (with_set h) f b s))
          → Finishes (x ∷ src) (follow (parse_loop (with_set h) f) r)
      by_round (continue_with b' s) less ih =
          let (unpanicked, fueled, shorter) = ih b' s less in
          (unpanicked, fueled, longer-Leaves s (x ∷ src) _ _ less shorter)
      by_round (return_ r b' s) ends ih = ends

pub parse_buffer-Finishes :
    {c : Crates} (b : ResponseBuilder c) (src : Bytes)
    → CratesLaws c
    → length src < u64_max
    → Finishes src (parse_buffer c b src)
parse_buffer-Finishes b src laws small =
    by_reference (λ k. (b : ResponseBuilder k) → Finishes src (parse_buffer k b src)) laws
      (λ set b.
        unfold parse_buffer in loop-Finishes set (suc (length src)) b src (omega arith) small)
      b

-- On a buffer that fits in memory `ResponseBuilder::parse` returns: no length underflows, no cut is
-- out of bounds, and the loop ends.
pub parse_buffer_total :
    {c : Crates} (b : ResponseBuilder c) (src : Bytes)
    → CratesLaws c
    → length src < u64_max
    → ((parse_buffer c b src).0 ≢ panicked) × ((parse_buffer c b src).0 ≢ out_of_fuel)
parse_buffer_total b src laws small =
    let (unpanicked, fueled, shorter) = parse_buffer-Finishes b src laws small in
    (unpanicked, fueled)
