-- ===== src/Codec/Connect/Rounds.antt =====
-- The rounds of the loop of `MpdCodec::connect` (src/codec.rs), and what its buffer can hold.
use mpd_protocol.Prelude.{
  ℕ, suc, ◌+◌, ◌≤◌, ◌<◌, ◌≡◌, ◌≢◌, ◌⊎◌, refl, ap, ◌∙◌, true, false, [], ◌∷◌, ◌++◌, arith, leb, inl,
  inr, length, take, take-append, drop, Bytes,
}
use mpd_protocol.Std.Utf8.{Str}
use mpd_protocol.Nom.Laws.{NomOps, NomLaws, IResult, done, incomplete, error, failure}
use mpd_protocol.Nom.Reference.{nom, tag}
use mpd_protocol.Nom.Unique.{by_reference}
use mpd_protocol.Crates.{Crates}
use mpd_protocol.Parser.{greeting}
use mpd_protocol.Parser.Greeting.{Greets, greeting-eq-done_iff}
use mpd_protocol.Parser.Stable.{extend}
use mpd_protocol.Parser.Streaming.{greeting-Stable}
use mpd_protocol.Codec.Connect.{
  read_bytes, panicked, AsyncRead, empty_greeting, greeting_length, overwrite, on_greeting,
  parse_read, on_outcome, connect_loop, connect,
}
use mpd_protocol.Codec.Connect.Returns.{follow, length-empty_greeting, length-overwrite}

-- A greeting that is cut before its end.
pub greeting-cut :
    {n : NomOps} (p : Bytes) (x : ℕ) (q : Bytes) (v : Str)
    → NomLaws n
    → Greets (p ++ x ∷ q) [] v
    → greeting n p ≡ incomplete
greeting-cut {n} p x q v laws greets =
    by_result (greeting n p) refl ((greeting-Stable laws).at p (x ∷ q))
  where
    whole : greeting n (p ++ x ∷ q) ≡ done [] v
    whole = (greeting-eq-done_iff (p ++ x ∷ q) [] v laws).1 greets

    by_result :
        (g : IResult Str)
        → greeting n p ≡ g
        → (greeting n p ≡ incomplete) ⊎ (greeting n (p ++ x ∷ q) ≡ extend (x ∷ q) (greeting n p))
        → greeting n p ≡ incomplete
    by_result g e (inl waits) = waits
    by_result incomplete e (inr same) = e
    by_result (done [] w) e (inr same) = cc (same, e, whole)
    by_result (done (y ∷ r) w) e (inr same) = cc (same, e, whole)
    by_result error e (inr same) = cc (same, e, whole)
    by_result failure e (inr same) = cc (same, e, whole)

reference_other : (x : ℕ) (s : Bytes) → x ≢ b'O' → greeting nom (x ∷ s) ≡ error
unfolding greeting tag
reference_other x s other = ground arith

pub greeting-other :
    {n : NomOps} (x : ℕ) (s : Bytes) → NomLaws n → x ≢ b'O' → greeting n (x ∷ s) ≡ error
greeting-other x s laws other =
    by_reference (λ n. greeting n (x ∷ s) ≡ error) laws (reference_other x s other)

module _ (c : Crates) {S : Type 0} (a : AsyncRead S) where
  -- What a round makes of the bytes that it reads.
  outcome-inside :
      (b : Bytes) (s : S) (read : ℕ) (buf : Bytes)
      → read + length b ≤ length (overwrite b buf)
      → on_outcome c a (read_bytes b, s) read buf
        ≡ on_greeting c a
            (greeting c.nom (take (read + length b) (overwrite b buf)))
            s
            (read + length b)
            (overwrite b buf)
  unfolding on_outcome parse_read
  outcome-inside b s read buf inside =
      let fits : leb (read + length b) (length (overwrite b buf)) ≡ true = ground arith in rw fits

  -- A round of the loop that reads within the buffer.
  pub round-loop :
      (fuel : ℕ) (b : Bytes) (s s' : S) (read : ℕ) (buf : Bytes)
      → length buf ≡ greeting_length
      → a.read s greeting_length ≡ (read_bytes b, s')
      → read + length b ≤ greeting_length
      → connect_loop c a (suc fuel) s read buf
        ≡ follow c a fuel (
            on_greeting c a
              (greeting c.nom (take (read + length b) (overwrite b buf)))
              s'
              (read + length b)
              (overwrite b buf))
  unfolding connect_loop
  round-loop fuel b s s' read buf size gave fits =
      ap (λ n. follow c a fuel (on_outcome c a (a.read s n) read buf)) size
      ∙ ap (λ o. follow c a fuel (on_outcome c a o read buf)) gave
      ∙ ap (follow c a fuel) (
          outcome-inside b s' read buf
            (omega (arith, length-overwrite b buf (omega arith), size, fits)))

  pub first_round :
      (fuel : ℕ) (b : Bytes) (s s' : S)
      → a.read s greeting_length ≡ (read_bytes b, s')
      → length b ≤ greeting_length
      → connect c a (suc fuel) s
        ≡ follow c a fuel
            (on_greeting c a (greeting c.nom b) s' (length b) (overwrite b empty_greeting))
  unfolding connect
  first_round fuel b s s' gave fits =
      round-loop fuel b s s' 0 empty_greeting length-empty_greeting gave (omega arith)
      ∙ ap
          (λ k. follow c a fuel (
            on_greeting c a (greeting c.nom (take k (overwrite b empty_greeting))) s' k
              (overwrite b empty_greeting)))
          (let nothing_before : 0 + length b ≡ length b = omega arith in nothing_before)
      ∙ ap
          (λ t.
            follow c a fuel
              (on_greeting c a (greeting c.nom t) s' (length b) (overwrite b empty_greeting)))
          (take-append b (drop (length b) empty_greeting))

  -- A round that has read more than the buffer holds.
  pub round_beyond :
      (fuel : ℕ) (b : Bytes) (s s' : S) (read : ℕ) (buf : Bytes)
      → length buf ≡ greeting_length
      → a.read s greeting_length ≡ (read_bytes b, s')
      → length b ≤ greeting_length
      → greeting_length < read + length b
      → connect_loop c a (suc fuel) s read buf ≡ panicked
  unfolding connect_loop on_outcome parse_read
  round_beyond fuel b s s' read buf size gave fits beyond =
      let kept = length-overwrite b buf (omega arith) in
      let outside : leb (read + length b) (length (overwrite b buf)) ≡ false = ground arith in
      ap (λ n. follow c a fuel (on_outcome c a (a.read s n) read buf)) size
      ∙ ap (λ o. follow c a fuel (on_outcome c a o read buf)) gave
      ∙ rw outside refl
