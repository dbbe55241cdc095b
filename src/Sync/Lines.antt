-- ===== src/Sync/Lines.antt =====
-- `read_until` of src/sync.rs against the lines of a stream.
use mpd_protocol.Prelude.{
  ℕ, zero, suc, ◌+◌, ◌≤◌, ◌≡◌, ◌≢◌, refl, sym, ap, ◌∙◌, Option, List, [], ◌∷◌, ◌++◌, append_assoc,
  arith, length, length-append, All, Bytes,
}
use mpd_protocol.BytesMut.{BytesLaws}
use mpd_protocol.Crates.{Crates}
use mpd_protocol.Sync.BufRead.{
  Fill, bytes, interruption, failure, Reader, available, interrupted, fill_buf, fills_bytes, stream,
}
use mpd_protocol.Sync.{
  ReadResult, read_ok, ReadRound, read_again, read_stop, take_available, use_available, on_fill,
  read_loop, read_until,
}
use mpd_protocol.Sync.Stream.{
  MemchrLaws, first_line, after_line, Healthy, whole, cut, piece, lines-whole, lines-cut, drop_all,
  drop_past, take_past, length-snoc,
}

-- What reading a line gives: its length, the line behind the buffer, and what is left to read.
pub record ReadsLine (d : ℕ) (s : Bytes) (read : ℕ) (buf : Bytes)
    (out : ReadResult × Reader × Bytes) : Type 0 where
  pub result : out.0 ≡ read_ok (read + length (first_line d s))
  pub buffer : out.2 ≡ buf ++ first_line d s
  pub left : stream out.1 ≡ after_line d s
  pub healthy : All Healthy out.1.fills

module _ (c : Crates) (memchr : ℕ → Bytes → Option ℕ) (laws : BytesLaws c.bytes)
    (found : MemchrLaws memchr) where
  pub round-whole :
      (d x : ℕ) (a : Bytes) (fs : List Fill) (read : ℕ) (buf : Bytes)
      → All (λ y. y ≢ d) (x ∷ a)
      → on_fill c memchr d (available (x ∷ a)) (record { buffered = x ∷ a; fills = fs }) read buf
        ≡ read_again (record { buffered = []; fills = fs }) (read + length (x ∷ a)) (buf ++ x ∷ a)
  unfolding on_fill take_available use_available
  round-whole d x a fs read buf free =
      rw (found.absent d (x ∷ a) free, laws.extend_from_slice_lem, drop_all a) (ground arith)

  pub round-cut :
      (d : ℕ) (p q : Bytes) (fs : List Fill) (read : ℕ) (buf : Bytes)
      → All (λ y. y ≢ d) p
      → on_fill c memchr d
          (available (p ++ d ∷ q))
          (record { buffered = p ++ d ∷ q; fills = fs })
          read
          buf
        ≡ read_stop
            (read_ok (read + length (p ++ d ∷ [])))
            (record { buffered = q; fills = fs })
            (buf ++ (p ++ d ∷ []))
  unfolding on_fill take_available use_available
  round-cut d p q fs read buf free =
      let next : length p + 1 ≡ suc (length p) = omega arith in
      rw (found.found d p q free, laws.extend_from_slice_lem)
        (rw (next, drop_past d p q, take_past d p q, length-snoc d p))

  pub round-end :
      (d : ℕ) (read : ℕ) (buf : Bytes)
      → on_fill c memchr d (available []) (record { buffered = []; fills = [] }) read buf
        ≡ read_stop (read_ok (read + 0)) (record { buffered = []; fills = [] }) (buf ++ [])
  unfolding on_fill take_available use_available
  round-end d read buf = rw (found.absent d [] tt, laws.extend_from_slice_lem) refl

  unfoldable pub follow :
      (Reader → ℕ → Bytes → ReadResult × Reader × Bytes) → ReadRound → ReadResult × Reader × Bytes
  follow loop (read_again r read buf) = loop r read buf
  follow loop (read_stop result r buf) = (result, r, buf)

  pub loop-follow :
      (fuel d : ℕ) (r : Reader) (read : ℕ) (buf : Bytes)
      → read_loop c memchr (suc fuel) d r read buf
        ≡ follow
            (read_loop c memchr fuel d)
            (on_fill c memchr d (fill_buf r).0 (fill_buf r).1 read buf)
  unfolding read_loop
  loop-follow fuel d r read buf =
      by_round (on_fill c memchr d (fill_buf r).0 (fill_buf r).1 read buf)
    where
      by_round :
          (x : ReadRound)
          → elim x [
            | read_again r' read' buf' ↦ read_loop c memchr fuel d r' read' buf'
            | read_stop result r' buf' ↦ (result, r', buf')
          ]
            ≡ follow (read_loop c memchr fuel d) x
      by_round (read_again r' read' buf') = unfold follow in refl
      by_round (read_stop result r' buf') = unfold follow in refl

  interrupted_round :
      (fuel d : ℕ) (fs : List Fill) (read : ℕ) (buf : Bytes)
      → ReadsLine d
          (fills_bytes fs)
          read
          buf
          (read_loop c memchr fuel d (record { buffered = []; fills = fs }) read buf)
      → ReadsLine d (fills_bytes fs) read buf (
          follow
            (read_loop c memchr fuel d)
            (on_fill c memchr d interrupted (record { buffered = []; fills = fs }) read buf))
  unfolding follow on_fill
  interrupted_round fuel d fs read buf h = h

  -- A round at a buffer that is not empty, and the rest of the loop at the fills.
  buffered-ReadsLine :
      (fuel d x : ℕ) (a : Bytes) (fs : List Fill) (read : ℕ) (buf : Bytes)
      → All Healthy fs
      → ((read : ℕ) (buf : Bytes)
          → ReadsLine d
              (fills_bytes fs)
              read
              buf
              (read_loop c memchr fuel d (record { buffered = []; fills = fs }) read buf))
      → ReadsLine d ((x ∷ a) ++ fills_bytes fs) read buf (
          follow (read_loop c memchr fuel d) (
            on_fill c memchr d
              (available (x ∷ a))
              (record { buffered = x ∷ a; fills = fs })
              read
              buf))
  unfolding follow
  buffered-ReadsLine fuel d x a fs read buf healthy rest = elim (piece d (x ∷ a)) [
    | whole free ↦
        let (l, t) = lines-whole d (x ∷ a) (fills_bytes fs) free in
        let r = rest (read + length (x ∷ a)) (buf ++ x ∷ a) in
        rw (round-whole d x a fs read buf free) (record {
          result =
              r.result
              ∙ ap read_ok
                  (rw l (omega (arith, length-append {0} (x ∷ a) (first_line d (fills_bytes fs)))));
          buffer = r.buffer ∙ rw l (append_assoc buf (x ∷ a) (first_line d (fills_bytes fs)));
          left = r.left ∙ sym t;
          healthy = r.healthy;
        })
    | cut p q splits free ↦
        let (l, t) = lines-cut d p q (fills_bytes fs) free in
        let stops : on_fill c memchr d (available (x ∷ a)) (record { buffered = x ∷ a; fills = fs })
              read buf
            ≡ read_stop (read_ok (read + length (p ++ d ∷ [])))
                (record { buffered = q; fills = fs }) (buf ++ (p ++ d ∷ [])) =
          rw splits (round-cut d p q fs read buf free) in
        let line : first_line d ((x ∷ a) ++ fills_bytes fs) ≡ p ++ d ∷ [] =
          ap (λ u. first_line d (u ++ fills_bytes fs)) splits ∙ l in
        let later : after_line d ((x ∷ a) ++ fills_bytes fs) ≡ q ++ fills_bytes fs =
          ap (λ u. after_line d (u ++ fills_bytes fs)) splits ∙ t in
        rw stops (record {
          result = ap (λ t. read_ok (read + length t)) (sym line);
          buffer = ap (λ t. buf ++ t) (sym line);
          left = sym later;
          healthy = healthy;
        })
  ]

  fills-ReadsLine :
      (fuel d : ℕ) (fs : List Fill) (read : ℕ) (buf : Bytes)
      → length fs ≤ fuel
      → All Healthy fs
      → ReadsLine d
          (fills_bytes fs)
          read
          buf
          (read_loop c memchr (suc fuel) d (record { buffered = []; fills = fs }) read buf)
  unfolding follow fill_buf Healthy
  fills-ReadsLine fuel d [] read buf enough h =
      rw (loop-follow fuel d (record { buffered = []; fills = [] }) read buf, round-end d read buf)
        (record { result = refl; buffer = refl; left = refl; healthy = tt })
  fills-ReadsLine zero d (f ∷ fs) read buf enough h = absurd (omega arith)
  fills-ReadsLine (suc fuel) d (bytes [] ∷ fs) read buf enough (h, hs) = absurd (h refl)
  fills-ReadsLine (suc fuel) d (bytes (x ∷ a) ∷ fs) read buf enough (h, hs) =
      rw (loop-follow (suc fuel) d (record { buffered = []; fills = bytes (x ∷ a) ∷ fs }) read buf)
        (buffered-ReadsLine (suc fuel) d x a fs read buf hs
          (λ n b. fills-ReadsLine fuel d fs n b (omega arith) hs))
  fills-ReadsLine (suc fuel) d (interruption ∷ fs) read buf enough (h, hs) =
      rw (loop-follow (suc fuel) d (record { buffered = []; fills = interruption ∷ fs }) read buf) (
        interrupted_round (suc fuel) d fs read buf
          (fills-ReadsLine fuel d fs read buf (omega arith) hs))
  fills-ReadsLine (suc fuel) d (failure e ∷ fs) read buf enough (h, hs) = absurd h

-- `read_until` appends the next line of the stream to the buffer, its delimiter included, or what is
-- left of the stream if there is none, and returns the number of bytes it appended; what it leaves is
-- the rest of the stream. How the source cuts the stream, and where it is interrupted, is not seen.
pub read_until-ReadsLine :
    (c : Crates) (memchr : ℕ → Bytes → Option ℕ) (r : Reader) (d : ℕ) (buf : Bytes)
    → BytesLaws c.bytes
    → MemchrLaws memchr
    → All Healthy r.fills
    → ReadsLine d (stream r) 0 buf (read_until c memchr r d buf)
unfolding read_until
read_until-ReadsLine c memchr r d buf laws found h = by_buffer r.buffered
  where
    by_buffer :
        (b : Bytes)
        → ReadsLine d (b ++ fills_bytes r.fills) 0 buf (
            read_loop c memchr
              (suc (suc (length r.fills)))
              d
              (record { buffered = b; fills = r.fills })
              0
              buf)
    by_buffer [] =
        fills-ReadsLine c memchr laws found (suc (length r.fills)) d r.fills 0 buf (omega arith) h
    by_buffer (x ∷ a) =
        rw
          (loop-follow c memchr laws found (suc (length r.fills)) d
            (record { buffered = x ∷ a; fills = r.fills }) 0 buf)
          (unfold fill_buf in
            buffered-ReadsLine c memchr laws found (suc (length r.fills)) d x a r.fills 0 buf h
              (λ n b.
                fills-ReadsLine c memchr laws found (length r.fills) d r.fills n b (omega arith) h))
