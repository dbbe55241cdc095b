-- ===== src/Sync/Safe.antt =====
-- `receive` of src/sync.rs on any source, whatever it does.
use mpd_protocol.Prelude.{
  ℕ, zero, suc, ◌+◌, ◌≤◌, ◌<◌, ◌≢◌, refl, Option, none, some, [], ◌∷◌, arith, ◌==◌, Bool-cases, inl,
  inr, length, length-append, Bytes,
}
use mpd_protocol.Std.Number.{u64_max}
use mpd_protocol.Crates.{Crates, CratesLaws}
use mpd_protocol.Builder.{
  ParseResult, ok, err, panicked, out_of_fuel, ResponseBuilder, new, parse_buffer,
  is_frame_in_progress,
}
use mpd_protocol.Builder.Progress.{Finishes, parse_buffer-Finishes}
use mpd_protocol.Sync.BufRead.{Reader, stream}
use mpd_protocol.Sync.{
  ReadResult, read_ok, read_err, read_out_of_fuel, read_until, ReceiveRound, receive_again,
  receive_stop, at_eof, on_response, on_read, receive_loop, receive,
}
use mpd_protocol.Sync.Stream.{MemchrLaws}
use mpd_protocol.Sync.Rounds.{follow, loop-follow}
use mpd_protocol.Sync.Moves.{Moves, OutMoves, read_until-Moves}

module _ (c : Crates) (memchr : ℕ → Bytes → Option ℕ) (laws : CratesLaws c)
    (found : MemchrLaws memchr) where
  -- A round ends without a panic, or goes on with less to come.
  abbrev RoundEnds : Reader → Bytes → ReceiveRound c → Type 0
  RoundEnds r src (receive_again b r' src') =
      (length (stream r') < length (stream r))
      × (length src' + length (stream r') ≤ length src + length (stream r))
  RoundEnds r src (receive_stop result r') = (result ≢ panicked) × (result ≢ out_of_fuel)

  at_eof-Ends :
      (b : ResponseBuilder c) (src : Bytes)
      → (at_eof c b src ≢ panicked) × (at_eof c b src ≢ out_of_fuel)
  unfolding at_eof
  at_eof-Ends b [] = elim (Bool-cases (is_frame_in_progress b.state)) [
    | inl inside ↦ rw inside (cc, cc)
    | inr between ↦ rw between (cc, cc)
  ]
  at_eof-Ends b (x ∷ src) = (cc, cc)

  on_response-Ends :
      (r : Reader) (src : Bytes) (n : ℕ) (r' : Reader) (given : Bytes)
      (out : ParseResult × ResponseBuilder c × Bytes)
      → Moves r 0 src r' n given
      → Finishes given out
      → RoundEnds r src (on_response c n r' out)
  unfolding on_response
  on_response-Ends r src n r' given (ok (some response), b, left) moves ends = (cc, cc)
  on_response-Ends r src n r' given (err e, b, left) moves ends = (cc, cc)
  on_response-Ends r src n r' given (panicked, b, left) moves (h, _, _) = absurd (h refl)
  on_response-Ends r src n r' given (out_of_fuel, b, left) moves (_, h, _) = absurd (h refl)
  on_response-Ends r src n r' given (ok none, b, left) (read, grown) (_, _, kept) =
      elim (Bool-cases (n == 0)) [
        | inl last ↦ rw last (at_eof-Ends b left)
        | inr more ↦ let some_read : n ≢ 0 = ground arith in rw more (omega arith, omega arith)
      ]

  on_read-Ends :
      (b : ResponseBuilder c) (r : Reader) (src : Bytes) (out : ReadResult × Reader × Bytes)
      → OutMoves r 0 src out
      → length src + length (stream r) < u64_max
      → RoundEnds r src (on_read c b out)
  unfolding on_read
  on_read-Ends b r src (read_ok n, r', given) moves small =
      on_response-Ends r src n r' given (parse_buffer c b given) moves
        (parse_buffer-Finishes b given laws (let (read, grown) = moves in omega arith))
  on_read-Ends b r src (read_err e, r', given) moves small = (cc, cc)
  on_read-Ends b r src (read_out_of_fuel, r', given) moves small = absurd moves

  loop-Ends :
      (fuel : ℕ) (b : ResponseBuilder c) (r : Reader) (src : Bytes)
      → length (stream r) < fuel
      → length src + length (stream r) < u64_max
      → ((receive_loop c memchr fuel b r src).0 ≢ panicked)
        × ((receive_loop c memchr fuel b r src).0 ≢ out_of_fuel)
  loop-Ends zero b r src enough small = absurd (omega arith)
  loop-Ends (suc fuel) b r src enough small = rw (loop-follow c memchr fuel b r src) (
      by_round (on_read c b (read_until c memchr r b'\n' src))
        (on_read-Ends b r src (read_until c memchr r b'\n' src)
          (read_until-Moves c memchr laws.bytes found b'\n' r src) small)
        (λ b' r' src' less fits. loop-Ends fuel b' r' src' (omega arith) (omega arith)))
    where
      by_round :
          (x : ReceiveRound c)
          → RoundEnds r src x
          → ((b' : ResponseBuilder c) (r' : Reader) (src' : Bytes)
              → length (stream r') < length (stream r)
              → length src' + length (stream r') ≤ length src + length (stream r)
              → ((receive_loop c memchr fuel b' r' src').0 ≢ panicked)
                × ((receive_loop c memchr fuel b' r' src').0 ≢ out_of_fuel))
          → ((follow (receive_loop c memchr fuel) x).0 ≢ panicked)
            × ((follow (receive_loop c memchr fuel) x).0 ≢ out_of_fuel)
      by_round (receive_again b' r' src') (less, fits) ih = ih b' r' src' less fits
      by_round (receive_stop result r') ends ih = ends

-- Safety: whatever the source does, `receive` returns and does not panic. The source may fail, be
-- interrupted, cut the bytes anywhere, send bytes that are no responses, and come to an end and go on.
-- What it sends fits in memory.
pub receive_safe :
    (c : Crates) (memchr : ℕ → Bytes → Option ℕ) (r : Reader)
    → CratesLaws c
    → MemchrLaws memchr
    → length (stream r) < u64_max
    → ((receive c memchr r).0 ≢ panicked) × ((receive c memchr r).0 ≢ out_of_fuel)
unfolding receive
receive_safe c memchr r laws found small =
    loop-Ends c memchr laws found (suc (length (stream r))) (new c) r c.bytes.new (omega arith)
      (rw laws.bytes.new_lem (omega arith))

-- The fuzz target `sync_receive` of fuzz/fuzz_targets: `receive` on a slice, through a `Cursor`, which has
-- all of it at hand and then is at its end.
pub sync_receive : (c : Crates) → (ℕ → Bytes → Option ℕ) → Bytes → ParseResult
sync_receive c memchr input = (receive c memchr (record { buffered = input; fills = [] })).0

sync_receive_safe :
    (c : Crates) (memchr : ℕ → Bytes → Option ℕ) (input : Bytes)
    → CratesLaws c
    → MemchrLaws memchr
    → length input < u64_max
    → (sync_receive c memchr input ≢ panicked) × (sync_receive c memchr input ≢ out_of_fuel)
unfolding sync_receive
sync_receive_safe c memchr input laws found small =
    receive_safe c memchr (record { buffered = input; fills = [] }) laws found
      (omega (arith, length-append {0} input []))
