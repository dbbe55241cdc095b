-- ===== src/Sync/Cut.antt =====
-- `receive` of src/sync.rs where the connection ends inside a reply.
use mpd_protocol.Prelude.{
  ℕ, ◌<◌, ◌≡◌, inl, inr, refl, sym, ap, ◌∙◌, subst, Option, none, List, [], ◌∷◌, ◌++◌, arith,
  length, length-append, All, Bytes,
}
use mpd_protocol.Std.Number.{u64_max}
use mpd_protocol.Errors.{unexpected_eof, io}
use mpd_protocol.Crates.{Crates, CratesLaws}
use mpd_protocol.Parser.Wire.{Message}
use mpd_protocol.Builder.{
  ParseResult, ok, err, ResponseBuilder, new, parse_buffer, is_frame_in_progress,
}
use mpd_protocol.Builder.Waiting.{Pending, parse_buffer-Pending}
use mpd_protocol.Builder.Invariant.{initial-WellFormed}
use mpd_protocol.Builder.Abstract.{Reply, nothing_yet, Replies, OnWire, progress}
use mpd_protocol.Builder.Refines.Run.{parse_buffer-Delivered}
use mpd_protocol.Builder.Refines.Waits.{waits_before}
use mpd_protocol.Sync.BufRead.{Reader, stream}
use mpd_protocol.Sync.{receive}
use mpd_protocol.Sync.Stream.{MemchrLaws, Healthy}
use mpd_protocol.Sync.Session.{receive_times, Sends, AllShow, session-AllShow}
use mpd_protocol.Sync.Receive.{whole_result, receive_lem}

-- Nothing came, or a part of a reply.
abbrev pub cut_result : Bytes → ParseResult
cut_result [] = ok none
cut_result (x ∷ s) = err (io unexpected_eof)

whole_result-Pending :
    (c : Crates) (b : ResponseBuilder c) (left : Bytes)
    → Pending c b left
    → whole_result c (ok none, b, left) ≡ err (io unexpected_eof)
unfolding whole_result
whole_result-Pending c b (x ∷ left) h = refl
whole_result-Pending c b [] (inl some_left) = absurd (some_left refl)
whole_result-Pending c b [] (inr begun) = rw begun refl

waiting-cut_result :
    (c : Crates) (s : Bytes) (b : ResponseBuilder c) (left : Bytes)
    → parse_buffer c (new c) s ≡ (ok none, b, left)
    → whole_result c (parse_buffer c (new c) s) ≡ cut_result s
unfolding whole_result
waiting-cut_result c [] b left e = unfold parse_buffer is_frame_in_progress in refl
waiting-cut_result c (x ∷ s) b left e =
    ap (whole_result c) e ∙ whole_result-Pending c b left (parse_buffer-Pending c (new c) x s e)

-- A source that ends inside a reply.
pub receive-cut_result :
    (c : Crates) (memchr : ℕ → Bytes → Option ℕ) (r : Reader) (x : ℕ) (missing : Bytes)
    (ms : List Message) (y : Reply)
    → CratesLaws c
    → MemchrLaws memchr
    → All Healthy r.fills
    → OnWire [] (stream r ++ x ∷ missing) ms
    → Replies y nothing_yet ms
    → length (stream r ++ x ∷ missing) < u64_max
    → (receive c memchr r).0 ≡ cut_result (stream r)
unfolding progress
receive-cut_result c memchr r x missing ms y laws found healthy wire replied small =
    let d =
      parse_buffer-Delivered (new c) (stream r ++ x ∷ missing) [] ms y laws initial-WellFormed wire
        replied small in
    let (b, left, waits) =
      waits_before laws (new c) (stream r ++ x ∷ missing) d small (stream r) x missing refl in
    receive_lem c memchr r laws found healthy
      (omega (arith, small, length-append (stream r) (x ∷ missing)))
    ∙ waiting-cut_result c (stream r) b left waits

-- A connection that ends: if the source carries the bytes of replies and then a part of one more, without
-- its end, then as many calls of `receive` return the replies, in order and complete, and the next
-- call reports an unexpected end of file, except where the part is empty: then it returns that there
-- is no response. The source does not fail, but it may cut the bytes anywhere and be interrupted
-- anywhere; the bytes of each reply fit in memory, and no field has the key `binary`.
pub receive_times-cut_result :
    (c : Crates) (memchr : ℕ → Bytes → Option ℕ) (r : Reader) (part : Bytes) (ys : List Reply)
    (x : ℕ) (missing : Bytes) (ms : List Message) (y : Reply)
    → CratesLaws c
    → MemchrLaws memchr
    → All Healthy r.fills
    → Sends part (stream r) ys
    → OnWire [] (part ++ x ∷ missing) ms
    → Replies y nothing_yet ms
    → length (part ++ x ∷ missing) < u64_max
    → AllShow (receive_times c memchr (length ys) r).0 ys
      × ((receive c memchr (receive_times c memchr (length ys) r).1).0 ≡ cut_result part)
receive_times-cut_result c memchr r part ys x missing ms y laws found healthy sent wire replied
      small =
    let (shows, left, healthy') =
      session-AllShow c memchr part r (stream r) ys laws found healthy refl sent in
    let r' = (receive_times c memchr (length ys) r).1 in
    (
      shows,
      receive-cut_result c memchr r' x missing ms y laws found healthy'
            (subst (λ s. OnWire [] (s ++ x ∷ missing) ms) (sym left) wire) replied
            (subst (λ s. length (s ++ x ∷ missing) < u64_max) (sym left) small)
          ∙ ap cut_result left,
    )
