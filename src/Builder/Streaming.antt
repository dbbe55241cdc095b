-- ===== src/Builder/Streaming.antt =====
-- The reader does not depend on how its input is cut into chunks.
use mpd_protocol.Prelude.{
  ℕ, zero, suc, ◌≤◌, ◌<◌, ◌≡◌, ◌⊎◌, inl, inr, refl, sym, ap, ◌∙◌, none, some, [], ◌∷◌, ◌++◌, arith,
  length, length-append, Bytes,
}
use mpd_protocol.Nom.Laws.{done, error, failure}
use mpd_protocol.Nom.Reference.{nom}
use mpd_protocol.Crates.{Crates, CratesLaws, with_set, by_reference}
use mpd_protocol.Std.Number.{u64_max}
use mpd_protocol.Interner.{HashSetOps, HashSetLaws}
use mpd_protocol.Parser.{
  ParsedComponent, end_of_frame, end_of_response, error_response, field, binary_field, Component,
  component,
}
use mpd_protocol.Parser.Wire.{Message, frame_end, response_end, ack, pair, blob, Says}
use mpd_protocol.Parser.Stable.{extend}
use mpd_protocol.Parser.Streaming.{Stable-component}
use mpd_protocol.Builder.{
  ParseResult, ok, err, panicked, out_of_fuel, ResponseBuilder, dispatch, round, parse_buffer,
}
use mpd_protocol.Builder.Messages.{deliver, round-deliver, Wire-extend, Wire-length}
use mpd_protocol.Builder.Progress.{
  RoundView, waits, refuses, delivers, round_view, round-refuses, follow, parse_buffer-round,
}

-- What a call has come to once more input is behind the buffer: a call that asked for more is made
-- again, on what it left in the buffer; any other result stands.
unfoldable pub resume :
    (c : Crates)
    → Bytes
    → ParseResult × ResponseBuilder c × Bytes
    → ParseResult × ResponseBuilder c × Bytes
resume c x (ok none, b, left) = parse_buffer c b (left ++ x)
resume c x (ok (some response), b, left) = (ok (some response), b, left ++ x)
resume c x (err e, b, left) = (err e, b, left ++ x)
resume c x (panicked, b, left) = (panicked, b, left ++ x)
resume c x (out_of_fuel, b, left) = (out_of_fuel, b, left ++ x)

module _ {h : HashSetOps} (laws : HashSetLaws h) where
  component-done :
      (src : Bytes) (x : Bytes) {r : Bytes} {c : Component nom h}
      → component nom h src ≡ done r c
      → component nom h (src ++ x) ≡ done (r ++ x) c
  component-done src x e = elim ((Stable-component h).at src x) [
    | inl waiting ↦ cc
    | inr same ↦ same ∙ ap (extend x) e
  ]

  component-refuses :
      (src : Bytes) (x : Bytes)
      → (component nom h src ≡ error) ⊎ (component nom h src ≡ failure)
      → (component nom h (src ++ x) ≡ error) ⊎ (component nom h (src ++ x) ≡ failure)
  component-refuses src x e = elim ((Stable-component h).at src x) [
    | inl waiting ↦ elim e [ inl p ↦ cc | inr p ↦ cc ]
    | inr same ↦ elim e [
      | inl p ↦ inl (same ∙ ap (extend x) p)
      | inr p ↦ inr (same ∙ ap (extend x) p)
    ]
  ]

  deliver-resume :
      (x : Bytes) (m : Message) (p : ParsedComponent) (b : ResponseBuilder (with_set h)) (r : Bytes)
      → Says p m
      → ((b : ResponseBuilder (with_set h))
          → parse_buffer (with_set h) b (r ++ x)
            ≡ resume (with_set h) x (parse_buffer (with_set h) b r))
      → follow laws (parse_buffer (with_set h)) (deliver h m p b (r ++ x))
        ≡ resume (with_set h) x (follow laws (parse_buffer (with_set h)) (deliver h m p b r))
  unfolding dispatch resume
  deliver-resume x (blob content) _ b r says ih = ih _
  deliver-resume x frame_end (binary_field len) b r (content', same, e) ih = cc same
  deliver-resume x response_end (binary_field len) b r (content', same, e) ih = cc same
  deliver-resume x (ack a) (binary_field len) b r (content', same, e) ih = cc same
  deliver-resume x (pair k v) (binary_field len) b r (content', same, e) ih = cc same
  deliver-resume x _ (field k v) b r says ih = ih _
  deliver-resume x _ end_of_frame b r says ih = ih _
  deliver-resume x _ (error_response e) b r says ih = refl
  deliver-resume x _ end_of_response b r says ih = refl

  abbrev Resumes : Bytes → ResponseBuilder (with_set h) → Bytes → Type 0
  Resumes x b src =
      parse_buffer (with_set h) b (src ++ x)
      ≡ resume (with_set h) x (parse_buffer (with_set h) b src)

  -- One round at a buffer that is not empty, and the rest of the loop by hypothesis.
  step-Resumes :
      (x : Bytes) (b : ResponseBuilder (with_set h)) (y : ℕ) (src : Bytes)
      → length ((y ∷ src) ++ x) < u64_max
      → ((b : ResponseBuilder (with_set h)) (r : Bytes)
          → length r < length (y ∷ src)
          → Resumes x b r)
      → Resumes x b (y ∷ src)
  unfolding resume
  step-Resumes x b y src small ih = by_view (round_view laws b (y ∷ src) short)
    where
      short : length (y ∷ src) < u64_max
      short = omega (arith, length-append {0} (y ∷ src) x)

      whole :
          parse_buffer (with_set h) b ((y ∷ src) ++ x)
          ≡ follow laws (parse_buffer (with_set h)) (round (with_set h) b ((y ∷ src) ++ x))
      whole = parse_buffer-round laws b y (src ++ x) small

      part :
          parse_buffer (with_set h) b (y ∷ src)
          ≡ follow laws (parse_buffer (with_set h)) (round (with_set h) b (y ∷ src))
      part = parse_buffer-round laws b y src short

      by_view : RoundView laws b (y ∷ src) → Resumes x b (y ∷ src)
      by_view (waits e ends) = rw (part, ends) refl
      by_view (refuses e ends) =
          whole
          ∙ rw (round-refuses laws b ((y ∷ src) ++ x) (component-refuses (y ∷ src) x e), part, ends)
              refl
      by_view (delivers r c m e w says ends) =
          whole
          ∙ ap (follow laws (parse_buffer (with_set h))) (
              round-deliver h b ((y ∷ src) ++ x) (r ++ x) c m small (component-done (y ∷ src) x e)
                (Wire-extend x w) says)
          ∙ deliver-resume x m (c b.fields).0 _ r says (λ b'. ih b' r (Wire-length w))
          ∙ ap (resume (with_set h) x)
              (sym (part ∙ ap (follow laws (parse_buffer (with_set h))) ends))

  Resumes-within :
      (n : ℕ) (x : Bytes) (b : ResponseBuilder (with_set h)) (src : Bytes)
      → length src ≤ n
      → length (src ++ x) < u64_max
      → Resumes x b src
  Resumes-within n x b [] bound small = unfold parse_buffer resume in refl
  Resumes-within zero x b (y ∷ src) bound small = absurd (omega arith)
  Resumes-within (suc n) x b (y ∷ src) bound small = step-Resumes x b y src small λ b' r less.
      Resumes-within n x b' r (omega arith)
        (omega (arith, length-append {0} r x, length-append {0} (y ∷ src) x))

-- Feeding a buffer in two parts gives what feeding it whole gives: the same response or error, the
-- same state and the same bytes left over. The bytes fit in memory.
pub parse_buffer-append :
    {c : Crates} (b : ResponseBuilder c) (src x : Bytes)
    → CratesLaws c
    → length (src ++ x) < u64_max
    → parse_buffer c b (src ++ x) ≡ resume c x (parse_buffer c b src)
parse_buffer-append b src x laws small =
    by_reference
      (λ k.
        (b : ResponseBuilder k) → parse_buffer k b (src ++ x) ≡ resume k x (parse_buffer k b src))
      laws (λ set b. Resumes-within set (length src) x b src (omega arith) small) b
