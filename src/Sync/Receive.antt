-- ===== src/Sync/Receive.antt =====
-- `receive` of src/sync.rs against the parser on all bytes of the source.
use mpd_protocol.Prelude.{
  ℕ, zero, suc, ◌≤◌, ◌<◌, ◌≡◌, refl, sym, ap, ◌∙◌, subst, false, Option, none, some, [], ◌∷◌, ◌++◌,
  append_assoc, arith, ◌==◌, if◌then◌else◌, length, length-append, All, Bytes,
}
use mpd_protocol.Std.Number.{u64_max}
use mpd_protocol.Crates.{Crates, CratesLaws}
use mpd_protocol.Builder.{
  ParseResult, ok, err, panicked, out_of_fuel, ResponseBuilder, new, parse_buffer,
  is_frame_in_progress,
}
use mpd_protocol.Errors.{unexpected_eof, io}
use mpd_protocol.Builder.Streaming.{resume, parse_buffer-append}
use mpd_protocol.Sync.BufRead.{Reader, stream}
use mpd_protocol.Sync.Rounds.{shorter, first_line-positive, follow, loop-follow, on_read-line}
use mpd_protocol.Sync.{at_eof, on_response, receive_loop, receive, read_until}
use mpd_protocol.Sync.Stream.{
  MemchrLaws, Healthy, first_line, after_line, first_line-append-after_line,
}
use mpd_protocol.Sync.Lines.{read_until-ReadsLine}

-- The result at the end of the input, when the whole of it went through the parser at once.
unfoldable pub whole_result : (c : Crates) → ParseResult × ResponseBuilder c × Bytes → ParseResult
whole_result c (ok none, b, []) =
    if is_frame_in_progress b.state then err (io unexpected_eof) else ok none
whole_result c (ok none, b, x ∷ src) = err (io unexpected_eof)
whole_result c (ok (some response), b, src) = ok (some response)
whole_result c (err e, b, src) = err e
whole_result c (panicked, b, src) = panicked
whole_result c (out_of_fuel, b, src) = out_of_fuel

module _ (c : Crates) (memchr : ℕ → Bytes → Option ℕ) (laws : CratesLaws c)
    (found : MemchrLaws memchr) where
  -- At the end of the input the round is the last.
  last_round :
      (loop : ResponseBuilder c → Reader → Bytes → ParseResult × Reader) (r : Reader)
      (p : ParseResult × ResponseBuilder c × Bytes)
      → (follow loop (on_response c 0 r p)).0 ≡ whole_result c p
  unfolding on_response at_eof whole_result
  last_round loop r (ok none, b, []) = refl
  last_round loop r (ok none, b, x ∷ src) = refl
  last_round loop r (ok (some response), b, src) = refl
  last_round loop r (err e, b, src) = refl
  last_round loop r (panicked, b, src) = refl
  last_round loop r (out_of_fuel, b, src) = refl

  -- Before it, a response or an error is final, and otherwise the rest decides.
  line_round :
      (loop : ResponseBuilder c → Reader → Bytes → ParseResult × Reader) (n : ℕ) (r : Reader)
      (rest : Bytes) (p : ParseResult × ResponseBuilder c × Bytes)
      → 1 ≤ n
      → ((b : ResponseBuilder c) (src : Bytes)
          → p ≡ (ok none, b, src)
          → (loop b r src).0 ≡ whole_result c (resume c rest p))
      → (follow loop (on_response c n r p)).0 ≡ whole_result c (resume c rest p)
  unfolding on_response whole_result resume
  line_round loop n r rest (ok none, b, src) some_read again =
      let reads : (n == 0) ≡ false = ground arith in rw reads (again b src refl)
  line_round loop n r rest (ok (some response), b, src) some_read again = refl
  line_round loop n r rest (err e, b, src) some_read again = refl
  line_round loop n r rest (panicked, b, src) some_read again = refl
  line_round loop n r rest (out_of_fuel, b, src) some_read again = refl

  -- One round on a stream, given what the loop does with the lines after the first.
  one_round :
      (loop : ResponseBuilder c → Reader → Bytes → ParseResult × Reader) (r : Reader)
      (consumed s : Bytes)
      → length (consumed ++ s) < u64_max
      → ((b : ResponseBuilder c) (src : Bytes)
          → parse_buffer c (new c) (consumed ++ first_line b'\n' s) ≡ (ok none, b, src)
          → 1 ≤ length (first_line b'\n' s)
          → (loop b r src).0
            ≡ whole_result c
                (parse_buffer c (new c) ((consumed ++ first_line b'\n' s) ++ after_line b'\n' s)))
      → (follow loop (
          on_response c
            (length (first_line b'\n' s))
            r
            (parse_buffer c (new c) (consumed ++ first_line b'\n' s)))).0
        ≡ whole_result c (parse_buffer c (new c) (consumed ++ s))
  one_round loop r consumed [] small rest =
      last_round loop r (parse_buffer c (new c) (consumed ++ []))
  one_round loop r consumed (x ∷ t) small rest =
      let line = first_line b'\n' (x ∷ t) in
      let later = after_line b'\n' (x ∷ t) in
      let whole : (consumed ++ line) ++ later ≡ consumed ++ x ∷ t =
        append_assoc consumed line later
        ∙ ap (λ u. consumed ++ u) (first_line-append-after_line b'\n' (x ∷ t)) in
      let resumed : parse_buffer c (new c) ((consumed ++ line) ++ later)
          ≡ resume c later (parse_buffer c (new c) (consumed ++ line)) =
        parse_buffer-append (new c) (consumed ++ line) later laws
          (subst (λ u. length u < u64_max) (sym whole) small) in
      line_round loop (length line) r later (parse_buffer c (new c) (consumed ++ line))
        (first_line-positive b'\n' x t)
        (λ b src parsed.
          rest b src parsed (first_line-positive b'\n' x t) ∙ ap (whole_result c) resumed)
      ∙ ap (whole_result c) (sym resumed ∙ ap (parse_buffer c (new c)) whole)

  loop-whole :
      (fuel : ℕ) (b : ResponseBuilder c) (r : Reader) (src consumed : Bytes)
      → parse_buffer c (new c) consumed ≡ (ok none, b, src)
      → All Healthy r.fills
      → length (stream r) < fuel
      → length (consumed ++ stream r) < u64_max
      → (receive_loop c memchr fuel b r src).0
        ≡ whole_result c (parse_buffer c (new c) (consumed ++ stream r))
  loop-whole zero b r src consumed so_far healthy enough small = absurd (omega arith)
  loop-whole (suc fuel) b r src consumed so_far healthy enough small =
      let lines : first_line b'\n' (stream r) ++ after_line b'\n' (stream r) ≡ stream r =
        first_line-append-after_line b'\n' (stream r) in
      let next = read_until-ReadsLine c memchr r b'\n' src laws.bytes found healthy in
      let short : length (consumed ++ first_line b'\n' (stream r)) < u64_max =
        shorter consumed b'\n' (stream r) small in
      ap (λ t. t.0)
        (loop-follow c memchr fuel b r src
          ∙ ap (follow (receive_loop c memchr fuel))
              (on_read-line c memchr b r src consumed laws found so_far healthy short))
      ∙ one_round (receive_loop c memchr fuel) (read_until c memchr r b'\n' src).1 consumed
          (stream r) small
          λ b' src' parsed some_read.
            loop-whole fuel b' (read_until c memchr r b'\n' src).1 src'
              (consumed ++ first_line b'\n' (stream r)) parsed next.healthy
              (omega (
                arith,
                ap length next.left,
                length-append {0} (first_line b'\n' (stream r)) (after_line b'\n' (stream r)),
                ap length lines,
              ))
              (subst (λ u. length u < u64_max)
                (sym (
                  ap (λ u. (consumed ++ first_line b'\n' (stream r)) ++ u) next.left
                  ∙ append_assoc consumed (first_line b'\n' (stream r))
                      (after_line b'\n' (stream r))
                  ∙ ap (λ u. consumed ++ u) lines))
                small)
            ∙ ap
                (λ u.
                  whole_result c
                    (parse_buffer c (new c) ((consumed ++ first_line b'\n' (stream r)) ++ u)))
                next.left

-- On a source that does not fail, `receive` ends, and its result is that of feeding all bytes of the
-- source to the parser at once: the first response or error in them; at their end, nothing if no
-- response has begun, and an unexpected end of file if one has. Neither the cuts of the source nor its
-- interruptions change it. The bytes fit in memory.
pub receive_lem :
    (c : Crates) (memchr : ℕ → Bytes → Option ℕ) (r : Reader)
    → CratesLaws c
    → MemchrLaws memchr
    → All Healthy r.fills
    → length (stream r) < u64_max
    → (receive c memchr r).0 ≡ whole_result c (parse_buffer c (new c) (stream r))
unfolding receive
receive_lem c memchr r laws found healthy small =
    loop-whole c memchr laws found (suc (length (stream r))) (new c) r c.bytes.new []
      (rw laws.bytes.new_lem (unfold parse_buffer in refl)) healthy (omega arith) small
