-- ===== src/Sync/Rounds.antt =====
-- The rounds of `receive` in src/sync.rs: the loop as the rounds that follow one another, and what a
-- round hands to the parser.
use mpd_protocol.Prelude.{
  ℕ, suc, ◌≤◌, ◌<◌, ◌≡◌, refl, sym, ap, ◌∙◌, Option, none, ◌∷◌, ◌++◌, arith, ◌==◌, Bool-cases, inl,
  inr, length, length-append, All, Bytes,
}
use mpd_protocol.Std.Number.{u64_max}
use mpd_protocol.Crates.{Crates, CratesLaws}
use mpd_protocol.Builder.{ParseResult, ok, ResponseBuilder, new, parse_buffer}
use mpd_protocol.Builder.Streaming.{resume, parse_buffer-append}
use mpd_protocol.Sync.BufRead.{Reader, stream}
use mpd_protocol.Sync.{
  read_ok, ReceiveRound, receive_again, receive_stop, on_response, on_read, receive_loop,
  read_until,
}
use mpd_protocol.Sync.Stream.{
  MemchrLaws, Healthy, first_line, after_line, first_line-append-after_line,
}
use mpd_protocol.Sync.Lines.{read_until-ReadsLine}

abbrev pub follow :
    {c : Crates}
    → (ResponseBuilder c → Reader → Bytes → ParseResult × Reader)
    → ReceiveRound c
    → ParseResult × Reader
follow loop (receive_again b r src) = loop b r src
follow loop (receive_stop result r) = (result, r)

pub first_line-positive : (d x : ℕ) (s : Bytes) → 1 ≤ length (first_line d (x ∷ s))
first_line-positive d x s = elim (Bool-cases (x == d)) [
  | inl here ↦ rw here (omega arith)
  | inr later ↦ rw later (omega arith)
]

triple_eq : {A B C : Type 0} (t : A × B × C) {a : A} {z : C} → t.0 ≡ a → t.2 ≡ z → t ≡ (a, t.1, z)
triple_eq t h k = rw (← h, ← k) refl

-- A line is no longer than the stream.
pub shorter :
    (consumed : Bytes) (d : ℕ) (s : Bytes)
    → length (consumed ++ s) < u64_max
    → length (consumed ++ first_line d s) < u64_max
shorter consumed d s small =
    let lines = length-append {0} (first_line d s) (after_line d s) in
    let same : length (first_line d s ++ after_line d s) ≡ length s =
      ap length (first_line-append-after_line d s) in
    omega (
      arith,
      length-append {0} consumed s,
      length-append {0} consumed (first_line d s),
      lines,
      same,
    )

module _ (c : Crates) (memchr : ℕ → Bytes → Option ℕ) where
  pub loop-follow :
      (fuel : ℕ) (b : ResponseBuilder c) (r : Reader) (src : Bytes)
      → receive_loop c memchr (suc fuel) b r src
        ≡ follow (receive_loop c memchr fuel) (on_read c b (read_until c memchr r b'\n' src))
  unfolding receive_loop
  loop-follow fuel b r src = by_round (on_read c b (read_until c memchr r b'\n' src))
    where
      by_round :
          (x : ReceiveRound c)
          → elim x [
            | receive_again b' r' src' ↦ receive_loop c memchr fuel b' r' src'
            | receive_stop result r' ↦ (result, r')
          ]
            ≡ follow (receive_loop c memchr fuel) x
      by_round (receive_again b' r' src') = refl
      by_round (receive_stop result r') = refl

  -- The round reads the next line and gives it to the parser, behind what has been consumed.
  pub on_read-line :
      (b : ResponseBuilder c) (r : Reader) (src consumed : Bytes)
      → CratesLaws c
      → MemchrLaws memchr
      → parse_buffer c (new c) consumed ≡ (ok none, b, src)
      → All Healthy r.fills
      → length (consumed ++ first_line b'\n' (stream r)) < u64_max
      → on_read c b (read_until c memchr r b'\n' src)
        ≡ on_response c
            (length (first_line b'\n' (stream r)))
            (read_until c memchr r b'\n' src).1
            (parse_buffer c (new c) (consumed ++ first_line b'\n' (stream r)))
  unfolding on_read
  on_read-line b r src consumed laws found so_far healthy small =
      let line = read_until-ReadsLine c memchr r b'\n' src laws.bytes found healthy in
      let at : read_until c memchr r b'\n' src ≡ (
        read_ok (length (first_line b'\n' (stream r))),
        (read_until c memchr r b'\n' src).1,
        src ++ first_line b'\n' (stream r),
      ) =
        triple_eq (read_until c memchr r b'\n' src) (line.result ∙ ap read_ok (omega arith))
          line.buffer in
      ap (on_read c b) at
      ∙ ap
          (on_response c (length (first_line b'\n' (stream r))) (read_until c memchr r b'\n' src).1)
          parsed
    where
      parsed :
          parse_buffer c b (src ++ first_line b'\n' (stream r))
          ≡ parse_buffer c (new c) (consumed ++ first_line b'\n' (stream r))
      parsed =
          unfold resume in
          sym (
            parse_buffer-append (new c) consumed (first_line b'\n' (stream r)) laws small
            ∙ ap (resume c (first_line b'\n' (stream r))) so_far)
