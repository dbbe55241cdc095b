-- ===== src/Sync/Moves.antt =====
-- `read_until` of src/sync.rs on any source, whatever it does: it may fail, and it may come to an end and
-- go on.
use mpd_protocol.Prelude.{
  ℕ, zero, suc, ◌+◌, ◌<◌, ◌≡◌, refl, ap, ◌∙◌, Option, List, [], ◌∷◌, ◌++◌, arith, length,
  length-append, Bytes,
}
use mpd_protocol.BytesMut.{BytesLaws}
use mpd_protocol.Crates.{Crates}
use mpd_protocol.Sync.BufRead.{
  Fill, bytes, interruption, failure, Reader, available, fill_buf, fills_bytes, stream,
}
use mpd_protocol.Sync.{
  ReadResult, read_ok, read_err, read_out_of_fuel, ReadRound, read_again, read_stop, take_available,
  use_available, on_fill, read_loop, read_until,
}
use mpd_protocol.Sync.Stream.{MemchrLaws, whole, cut, piece}
use mpd_protocol.Sync.Lines.{round-whole, round-cut}
use mpd_protocol.Sync.Lines

-- The bytes read and the bytes in the buffer have come off the stream.
abbrev pub Moves : Reader → ℕ → Bytes → Reader → ℕ → Bytes → Type 0
Moves r read buf r' read' buf' =
    (read' + length (stream r') ≡ read + length (stream r))
    × (length buf' + length (stream r') ≡ length buf + length (stream r))

-- The rounds that a reader has left: one for each result, and one for what is buffered.
abbrev rounds_for : Bytes → ℕ
rounds_for [] = 0
rounds_for (x ∷ b) = 1

abbrev rounds_left : Reader → ℕ
rounds_left r = length r.fills + rounds_for r.buffered

abbrev pub OutMoves : Reader → ℕ → Bytes → ReadResult × Reader × Bytes → Type 0
OutMoves r read buf (read_ok n, r', buf') = Moves r read buf r' n buf'
OutMoves r read buf (read_err e, r', buf') = Unit
OutMoves r read buf (read_out_of_fuel, r', buf') = ⊥

abbrev RoundMoves : Reader → ℕ → Bytes → ReadRound → Type 0
RoundMoves r read buf (read_again r' read' buf') =
    Moves r read buf r' read' buf' × (rounds_left r' < rounds_left r)
RoundMoves r read buf (read_stop result r' buf') = OutMoves r read buf (result, r', buf')

module _ (c : Crates) (memchr : ℕ → Bytes → Option ℕ) (laws : BytesLaws c.bytes)
    (found : MemchrLaws memchr) (d : ℕ) where
  -- An empty piece is taken for the end of the source.
  end-Moves :
      (fs : List Fill) (r : Reader) (read : ℕ) (buf : Bytes)
      → length (stream r) ≡ length (fills_bytes fs)
      → RoundMoves r read buf
          (on_fill c memchr d (available []) (record { buffered = []; fills = fs }) read buf)
  unfolding on_fill take_available use_available
  end-Moves fs r read buf same =
      rw (found.absent d [] tt, laws.extend_from_slice_lem)
        (omega (arith, same), omega (arith, same, length-append {0} buf []))

  available-Moves :
      (x : ℕ) (a : Bytes) (fs : List Fill) (r : Reader) (read : ℕ) (buf : Bytes)
      → length (stream r) ≡ length ((x ∷ a) ++ fills_bytes fs)
      → length fs < rounds_left r
      → RoundMoves r read buf (
          on_fill c memchr d (available (x ∷ a)) (record { buffered = x ∷ a; fills = fs }) read buf)
  available-Moves x a fs r read buf same less =
      let size = length-append {0} (x ∷ a) (fills_bytes fs) in
      let grown = length-append {0} buf in
      elim (piece d (x ∷ a)) [
        | whole free ↦ rw (round-whole c memchr laws found d x a fs read buf free) (
          (omega (arith, same, size), omega (arith, same, size, grown (x ∷ a))),
          omega (arith, less),
        )
        | cut p q splits free ↦
            let used = length-append {0} (p ++ d ∷ []) (q ++ fills_bytes fs) in
            let parts : length ((x ∷ a) ++ fills_bytes fs)
                ≡ length (p ++ d ∷ []) + length (q ++ fills_bytes fs) =
              ap (λ t. length (t ++ fills_bytes fs)) splits ∙ cut_length p q (fills_bytes fs) in
            let stops : on_fill c memchr d (available (x ∷ a))
                  (record { buffered = x ∷ a; fills = fs }) read buf
                ≡ read_stop (read_ok (read + length (p ++ d ∷ [])))
                    (record { buffered = q; fills = fs }) (buf ++ (p ++ d ∷ [])) =
              rw splits (round-cut c memchr laws found d p q fs read buf free) in
            rw stops (omega (arith, same, parts), omega (arith, same, parts, grown (p ++ d ∷ [])))
      ]
    where
      cut_length :
          (p q t : Bytes) → length ((p ++ d ∷ q) ++ t) ≡ length (p ++ d ∷ []) + length (q ++ t)
      cut_length [] q t = omega arith
      cut_length (y ∷ p) q t = omega (arith, cut_length p q t)

  round-Moves :
      (r : Reader) (read : ℕ) (buf : Bytes)
      → RoundMoves r read buf (on_fill c memchr d (fill_buf r).0 (fill_buf r).1 read buf)
  unfolding fill_buf on_fill
  round-Moves r read buf = by_reader r.buffered r.fills
    where
      by_reader :
          (b : Bytes) (fs : List Fill)
          → RoundMoves
              (record { buffered = b; fills = fs })
              read
              buf
              (on_fill c memchr d
                (fill_buf (record { buffered = b; fills = fs })).0
                (fill_buf (record { buffered = b; fills = fs })).1
                read
                buf)
      by_reader (x ∷ b) fs =
          available-Moves x b fs (record { buffered = x ∷ b; fills = fs }) read buf refl
            (omega arith)
      by_reader [] [] = end-Moves [] (record { buffered = []; fills = [] }) read buf refl
      by_reader [] (bytes [] ∷ fs) =
          end-Moves fs (record { buffered = []; fills = bytes [] ∷ fs }) read buf refl
      by_reader [] (bytes (x ∷ b) ∷ fs) =
          available-Moves x b fs (record { buffered = []; fills = bytes (x ∷ b) ∷ fs }) read buf
            refl (omega arith)
      by_reader [] (interruption ∷ fs) = ((refl, refl), omega arith)
      by_reader [] (failure e ∷ fs) = tt

  loop-Moves :
      (fuel : ℕ) (r : Reader) (read : ℕ) (buf : Bytes)
      → rounds_left r < fuel
      → OutMoves r read buf (read_loop c memchr fuel d r read buf)
  loop-Moves zero r read buf enough = absurd (omega arith)
  loop-Moves (suc fuel) r read buf enough =
      rw (Lines.loop-follow c memchr laws found fuel d r read buf) (
        by_round (on_fill c memchr d (fill_buf r).0 (fill_buf r).1 read buf)
          (round-Moves r read buf)
          (λ r' read' buf' less. loop-Moves fuel r' read' buf' (omega arith)))
    where
      chained :
          (r' : Reader) (read' : ℕ) (buf' : Bytes) (out : ReadResult × Reader × Bytes)
          → Moves r read buf r' read' buf'
          → OutMoves r' read' buf' out
          → OutMoves r read buf out
      chained r' read' buf' (read_ok n, r'', buf'') (h, k) (h', k') = (h' ∙ h, k' ∙ k)
      chained r' read' buf' (read_err e, r'', buf'') m m' = tt
      chained r' read' buf' (read_out_of_fuel, r'', buf'') m m' = m'

      by_round :
          (x : ReadRound)
          → RoundMoves r read buf x
          → ((r' : Reader) (read' : ℕ) (buf' : Bytes)
              → rounds_left r' < rounds_left r
              → OutMoves r' read' buf' (read_loop c memchr fuel d r' read' buf'))
          → OutMoves r read buf (Lines.follow c memchr laws found (read_loop c memchr fuel d) x)
      by_round (read_again r' read' buf') (moves, less) ih =
          unfold Lines.follow in
          chained r' read' buf' (read_loop c memchr fuel d r' read' buf') moves
            (ih r' read' buf' less)
      by_round (read_stop result r' buf') moves ih = unfold Lines.follow in moves

  pub read_until-Moves : (r : Reader) (buf : Bytes) → OutMoves r 0 buf (read_until c memchr r d buf)
  unfolding read_until
  read_until-Moves r buf = loop-Moves (suc (suc (length r.fills))) r 0 buf (bounded r.buffered)
    where
      bounded : (b : Bytes) → length r.fills + rounds_for b < suc (suc (length r.fills))
      bounded [] = omega arith
      bounded (x ∷ b) = omega arith
