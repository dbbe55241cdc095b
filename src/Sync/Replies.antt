-- ===== src/Sync/Replies.antt =====
-- `receive` of src/sync.rs on the bytes of a reply: where it stops reading.
use mpd_protocol.Prelude.{
  ℕ, zero, suc, ◌≤◌, ◌<◌, ◌≡◌, refl, sym, ap, ◌∙◌, subst, Bool, true, false, Option, none, some,
  List, [], ◌∷◌, ◌++◌, append_assoc, append-nil, arith, ◌==◌, Bool-cases, inl, inr, length,
  length-append, All, Bytes, codes,
}
use mpd_protocol.Std.Number.{u64_max}
use mpd_protocol.Crates.{Crates, CratesLaws}
use mpd_protocol.Parser.Wire.{
  Message, Wire, ok_line, list_ok_line, ack_line, binary_section, field_line,
}
use mpd_protocol.Response.{Response}
use mpd_protocol.Builder.{
  ParseResult, ok, err, panicked, out_of_fuel, ResponseBuilder, new, parse_buffer,
}
use mpd_protocol.Builder.Messages.{Wire-prefix}
use mpd_protocol.Builder.Abstract.{
  Reply, Progress, replies, advance, Replies, now, later, OnWire, stop, more,
}
use mpd_protocol.Builder.Refines.Waits.{waits_before}
use mpd_protocol.Builder.Refines.Run.{Delivered}
use mpd_protocol.Sync.BufRead.{Reader, stream}
use mpd_protocol.Sync.{receive_again, receive_stop, on_response, receive_loop, read_until}
use mpd_protocol.Sync.Stream.{
  MemchrLaws, Healthy, first_line, after_line, first_line-append-after_line, contains,
  lines-contains,
}
use mpd_protocol.Sync.Lines.{read_until-ReadsLine}
use mpd_protocol.Sync.Rounds.{first_line-positive, follow, shorter, loop-follow, on_read-line}

-- The last byte is a newline.
abbrev pub ends_line : Bytes → Bool
ends_line [] = false
ends_line (x ∷ []) = x == b'\n'
ends_line (x ∷ y ∷ s) = ends_line (y ∷ s)

ends_line-append : (a : Bytes) (y : ℕ) (s : Bytes) → ends_line (a ++ y ∷ s) ≡ ends_line (y ∷ s)
ends_line-append [] y s = refl
ends_line-append (x ∷ []) y s = refl
ends_line-append (x ∷ x' ∷ a) y s = ends_line-append (x' ∷ a) y s

ends_line-contains : (t : Bytes) → ends_line t ≡ true → contains b'\n' t ≡ true
ends_line-contains [] h = cc
ends_line-contains (x ∷ []) h = rw h refl
ends_line-contains (x ∷ y ∷ s) h = elim (Bool-cases (x == b'\n')) [
  | inl newline ↦ rw newline refl
  | inr other ↦ rw other (ends_line-contains (y ∷ s) h)
]

-- A reply ends with a line.
wire-ends_line :
    (i j : Bytes) → ends_line j ≡ true → (msg : Bytes) → i ≡ msg ++ j → ends_line i ≡ true
wire-ends_line i [] h msg e = cc
wire-ends_line i (y ∷ s) h msg e = ap ends_line e ∙ ends_line-append msg y s ∙ h

last-ends_line :
    {i : Bytes} {m : Message} (p : Progress) {y : Reply}
    → Wire i [] m
    → advance m p ≡ replies y
    → ends_line i ≡ true
unfolding advance
last-ends_line p (ok_line e) h = ap ends_line e
last-ends_line {i} p (ack_line a code index command message _ _ _ _ e) h =
    wire-ends_line i (b'\n' ∷ []) refl
      (codes "ACK ["
        ++ (code ++ (b'@' ∷ (index ++ (codes "] {" ++ (command ++ (codes "} " ++ message)))))))
      (e ∙ simp append_assoc)
last-ends_line p (list_ok_line e) h = cc
last-ends_line p (binary_section digits content _ e) h = cc
last-ends_line p (field_line key value v _ _ _ e) h = cc

pub OnWire-ends_line :
    {i : Bytes} {ms : List Message} {p : Progress} {y : Reply}
    → OnWire [] i ms
    → Replies y p ms
    → ends_line i ≡ true
OnWire-ends_line stop rs = elim rs [ ]
OnWire-ends_line (more _ m _ w u stop) (now _ e) = last-ends_line _ w e
OnWire-ends_line {i} (more j m ms w u rest) (later _ _ q e rs) =
    let (msg, split) = Wire-prefix w in wire-ends_line i j (OnWire-ends_line rest rs) msg split

-- A call that reads a reply: its response, what is left to read, and a source that still does not fail.
pub record Received (rest : Bytes) (response : Response) (out : ParseResult × Reader) : Type 0 where
  pub result : out.0 ≡ ok (some response)
  pub left : stream out.1 ≡ rest
  pub healthy : All Healthy out.1.fills

first_line-ends_line : (t : Bytes) → ends_line t ≡ true → 1 ≤ length (first_line b'\n' t)
first_line-ends_line [] h = cc
first_line-ends_line (x ∷ t) h = first_line-positive b'\n' x t

answered :
    (c : Crates) (n : ℕ) (r : Reader) (p : ParseResult × ResponseBuilder c × Bytes)
    {response : Response}
    → p.0 ≡ ok (some response)
    → on_response c n r p ≡ receive_stop (ok (some response)) r
unfolding on_response
answered c n r (ok (some response), b, src) e = ap (λ t. receive_stop t r) e
answered c n r (ok none, b, src) e = cc
answered c n r (err z, b, src) e = cc
answered c n r (panicked, b, src) e = cc
answered c n r (out_of_fuel, b, src) e = cc

unanswered :
    (c : Crates) (n : ℕ) (r : Reader) (p : ParseResult × ResponseBuilder c × Bytes)
    {b : ResponseBuilder c} {src : Bytes}
    → 1 ≤ n
    → p ≡ (ok none, b, src)
    → on_response c n r p ≡ receive_again b r src
unfolding on_response
unanswered c n r p some_read e = let reads : (n == 0) ≡ false = ground arith in rw e (rw reads refl)

module _ (c : Crates) (memchr : ℕ → Bytes → Option ℕ) (laws : CratesLaws c)
    (found : MemchrLaws memchr) (whole : Bytes) {y : Reply}
    (d : Delivered c [] y (parse_buffer c (new c) whole)) (small : length whole < u64_max) where
  -- One round, with what the loop does if bytes of the reply are still to come.
  round-Received :
      (loop : ResponseBuilder c → Reader → Bytes → ParseResult × Reader) (r : Reader)
      (consumed ahead rest : Bytes)
      → whole ≡ consumed ++ ahead
      → stream r ≡ after_line b'\n' ahead ++ rest
      → ends_line ahead ≡ true
      → All Healthy r.fills
      → ((b : ResponseBuilder c) (src : Bytes) (x : ℕ) (s : Bytes)
          → parse_buffer c (new c) (consumed ++ first_line b'\n' ahead) ≡ (ok none, b, src)
          → whole ≡ (consumed ++ first_line b'\n' ahead) ++ x ∷ s
          → stream r ≡ (x ∷ s) ++ rest
          → ends_line (x ∷ s) ≡ true
          → length (x ∷ s) < length ahead
          → Received rest d.response (loop b r src))
      → Received rest d.response (
          follow loop (
            on_response c
              (length (first_line b'\n' ahead))
              r
              (parse_buffer c (new c) (consumed ++ first_line b'\n' ahead))))
  round-Received loop r consumed ahead rest splits comes ends healthy again =
      by_after (after_line b'\n' ahead) refl
    where
      lines : first_line b'\n' ahead ++ after_line b'\n' ahead ≡ ahead
      lines = first_line-append-after_line b'\n' ahead

      by_after :
          (u : Bytes)
          → after_line b'\n' ahead ≡ u
          → Received rest d.response (
              follow loop (
                on_response c
                  (length (first_line b'\n' ahead))
                  r
                  (parse_buffer c (new c) (consumed ++ first_line b'\n' ahead))))
      by_after [] e =
          let all : first_line b'\n' ahead ≡ ahead =
            sym (append-nil (first_line b'\n' ahead))
            ∙ ap (λ u. first_line b'\n' ahead ++ u) (sym e)
            ∙ lines in
          let complete : (parse_buffer c (new c) (consumed ++ first_line b'\n' ahead)).0
              ≡ ok (some d.response) =
            ap (λ u. (parse_buffer c (new c) (consumed ++ u)).0) all
            ∙ ap (λ u. (parse_buffer c (new c) u).0) (sym splits)
            ∙ d.result in
          subst (λ round. Received rest d.response (follow loop round))
            (sym (answered c (length (first_line b'\n' ahead)) r _ complete))
            (record { result = refl; left = comes ∙ ap (λ u. u ++ rest) e; healthy = healthy })
      by_after (x ∷ s) e =
          let all : first_line b'\n' ahead ++ x ∷ s ≡ ahead =
            ap (λ u. first_line b'\n' ahead ++ u) (sym e) ∙ lines in
          let splits' : whole ≡ (consumed ++ first_line b'\n' ahead) ++ x ∷ s =
            splits
            ∙ ap (λ u. consumed ++ u) (sym all)
            ∙ sym (append_assoc consumed (first_line b'\n' ahead) (x ∷ s)) in
          let (b, src, waits) =
            waits_before laws (new c) whole d small (consumed ++ first_line b'\n' ahead) x s
              splits' in
          let some_read = first_line-ends_line ahead ends in
          subst (λ round. Received rest d.response (follow loop round))
            (sym (unanswered c (length (first_line b'\n' ahead)) r _ some_read waits))
            (again b src x s waits splits' (comes ∙ ap (λ u. u ++ rest) e)
              (sym (ends_line-append (first_line b'\n' ahead) x s) ∙ ap ends_line all ∙ ends)
              (omega (
                arith,
                some_read,
                ap length all,
                length-append {0} (first_line b'\n' ahead) (x ∷ s),
              )))

  -- The loop, with part of the reply consumed and the rest of it ahead.
  pub loop-Received :
      (fuel : ℕ) (b : ResponseBuilder c) (r : Reader) (src consumed ahead rest : Bytes)
      → parse_buffer c (new c) consumed ≡ (ok none, b, src)
      → whole ≡ consumed ++ ahead
      → stream r ≡ ahead ++ rest
      → ends_line ahead ≡ true
      → All Healthy r.fills
      → length ahead < fuel
      → Received rest d.response (receive_loop c memchr fuel b r src)
  loop-Received zero b r src consumed ahead rest so_far splits comes ends healthy enough =
      absurd (omega arith)
  loop-Received (suc fuel) b r src consumed ahead rest so_far splits comes ends healthy enough =
      let (line, after) = lines-contains b'\n' ahead rest (ends_line-contains ahead ends) in
      let this : first_line b'\n' (stream r) ≡ first_line b'\n' ahead =
        ap (first_line b'\n') comes ∙ line in
      let next = read_until-ReadsLine c memchr r b'\n' src laws.bytes found healthy in
      let short : length (consumed ++ first_line b'\n' (stream r)) < u64_max =
        subst (λ l. length (consumed ++ l) < u64_max) (sym this)
          (shorter consumed b'\n' ahead (subst (λ t. length t < u64_max) splits small)) in
      let leaves : stream (read_until c memchr r b'\n' src).1 ≡ after_line b'\n' ahead ++ rest =
        next.left ∙ ap (after_line b'\n') comes ∙ after in
      subst (Received rest d.response)
        (sym (
          loop-follow c memchr fuel b r src
          ∙ ap (follow (receive_loop c memchr fuel)) (
              on_read-line c memchr b r src consumed laws found so_far healthy short
              ∙ ap
                  (λ l.
                    on_response c (length l) (read_until c memchr r b'\n' src).1
                      (parse_buffer c (new c) (consumed ++ l)))
                  this)))
        (round-Received (receive_loop c memchr fuel) (read_until c memchr r b'\n' src).1 consumed
          ahead rest splits leaves ends next.healthy
          λ b' src' x s waits splits' comes' ends' shorter'.
            loop-Received fuel b' (read_until c memchr r b'\n' src).1 src'
              (consumed ++ first_line b'\n' ahead) (x ∷ s) rest waits splits' comes' ends'
              next.healthy (omega arith))
