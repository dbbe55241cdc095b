-- ===== src/Builder/Refines/Waits.antt =====
-- `ResponseBuilder::parse` on a part of the bytes of a reply.
use mpd_protocol.Prelude.{
  ℕ, ◌<◌, ◌≡◌, refl, sym, ap, ◌∙◌, subst, none, some, [], ◌∷◌, ◌++◌, length, append_ne_nil, Bytes,
}
use mpd_protocol.Std.Number.{u64_max}
use mpd_protocol.Crates.{Crates, CratesLaws}
use mpd_protocol.Builder.{
  ParseResult, ok, err, panicked, out_of_fuel, ResponseBuilder, parse_buffer,
}
use mpd_protocol.Builder.Streaming.{resume, parse_buffer-append}
use mpd_protocol.Builder.Abstract.{Reply}
use mpd_protocol.Builder.Refines.Run.{Delivered}

module _ {c : Crates} (laws : CratesLaws c) (start : ResponseBuilder c) (whole : Bytes) {y : Reply}
    (d : Delivered c [] y (parse_buffer c start whole)) (small : length whole < u64_max) where
  -- A proper prefix of the reply's bytes gives no response yet.
  pub waits_before :
      (consumed : Bytes) (x : ℕ) (s : Bytes)
      → whole ≡ consumed ++ x ∷ s
      → (b : ResponseBuilder c) × (src : Bytes) × (parse_buffer c start consumed
          ≡ (ok none, b, src))
  unfolding resume
  waits_before consumed x s splits = by_result (parse_buffer c start consumed) refl
    where
      resumed : parse_buffer c start whole ≡ resume c (x ∷ s) (parse_buffer c start consumed)
      resumed =
          ap (parse_buffer c start) splits
          ∙ parse_buffer-append start consumed (x ∷ s) laws
              (subst (λ t. length t < u64_max) splits small)

      by_result :
          (p : ParseResult × ResponseBuilder c × Bytes)
          → parse_buffer c start consumed ≡ p
          → (b : ResponseBuilder c) × (src : Bytes) × (parse_buffer c start consumed
              ≡ (ok none, b, src))
      by_result (ok none, b, src) e = (b, src, e)
      by_result (ok (some response), b, src) e =
          absurd (
            append_ne_nil src x s
              (ap (λ t. t.2) (sym (resumed ∙ ap (resume c (x ∷ s)) e)) ∙ d.left))
      by_result (err z, b, src) e =
          let clash : err z ≡ ok (some d.response) =
            ap (λ t. t.0) (sym (resumed ∙ ap (resume c (x ∷ s)) e)) ∙ d.result in
          cc clash
      by_result (panicked, b, src) e =
          let clash : panicked ≡ ok (some d.response) =
            ap (λ t. t.0) (sym (resumed ∙ ap (resume c (x ∷ s)) e)) ∙ d.result in
          cc clash
      by_result (out_of_fuel, b, src) e =
          let clash : out_of_fuel ≡ ok (some d.response) =
            ap (λ t. t.0) (sym (resumed ∙ ap (resume c (x ∷ s)) e)) ∙ d.result in
          cc clash

  -- With more behind the reply's bytes, the response is the same, and what is behind is left.
  pub delivered_behind :
      (u : Bytes)
      → length (whole ++ u) < u64_max
      → parse_buffer c start (whole ++ u)
        ≡ (ok (some d.response), (parse_buffer c start whole).1, u)
  unfolding resume
  delivered_behind u fits =
      parse_buffer-append start whole u laws fits
      ∙ ap (resume c u) (triple (parse_buffer c start whole) d.result d.left)
    where
      triple :
          (p : ParseResult × ResponseBuilder c × Bytes) {r : ParseResult} {left : Bytes}
          → p.0 ≡ r
          → p.2 ≡ left
          → p ≡ (r, p.1, left)
      triple p h k = rw (← h, ← k) refl
