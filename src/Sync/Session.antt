-- ===== src/Sync/Session.antt =====
-- A session: calls of `receive` (src/sync.rs) one after the other, on a source that carries replies.
use mpd_protocol.Prelude.{
  ℕ, zero, suc, ◌<◌, ◌≡◌, refl, ap, ◌∙◌, Option, some, List, [], ◌∷◌, ◌++◌, arith, length,
  length-append, All, Bytes,
}
use mpd_protocol.Std.Number.{u64_max}
use mpd_protocol.Crates.{Crates, CratesLaws}
use mpd_protocol.Parser.Wire.{Message}
use mpd_protocol.Response.{Response}
use mpd_protocol.Builder.{ParseResult, ok, new, parse_buffer}
use mpd_protocol.Builder.Invariant.{initial-WellFormed}
use mpd_protocol.Builder.Abstract.{Reply, nothing_yet, Replies, OnWire, shown_response, progress}
use mpd_protocol.Builder.Refines.Run.{parse_buffer-Delivered}
use mpd_protocol.Sync.BufRead.{Reader, stream}
use mpd_protocol.Sync.{receive}
use mpd_protocol.Sync.Stream.{MemchrLaws, Healthy}
use mpd_protocol.Sync.Replies.{Received, OnWire-ends_line, loop-Received}

-- On a source that does not fail and carries the bytes of a reply, with anything behind them, `receive`
-- returns a response that shows the reply and leaves exactly what is behind it to be read. The reply's
-- bytes fit in memory, and no field has the key `binary`.
pub receive-Received :
    (c : Crates) (memchr : ℕ → Bytes → Option ℕ) (r : Reader) (i rest : Bytes) (ms : List Message)
    (y : Reply)
    → CratesLaws c
    → MemchrLaws memchr
    → All Healthy r.fills
    → OnWire [] i ms
    → Replies y nothing_yet ms
    → stream r ≡ i ++ rest
    → length i < u64_max
    → (response : Response) × Received rest response (receive c memchr r)
      × (shown_response response ≡ y)
unfolding receive progress
receive-Received c memchr r i rest ms y laws found healthy wire replied comes small =
    let d = parse_buffer-Delivered (new c) i [] ms y laws initial-WellFormed wire replied small in
    (
      d.response,
      loop-Received c memchr laws found i d small (suc (length (stream r))) (new c) r c.bytes.new []
          i rest (rw laws.bytes.new_lem (unfold parse_buffer in refl)) refl comes
          (OnWire-ends_line wire replied) healthy
          (omega (arith, ap length comes, length-append {0} i rest)),
      d.shows,
    )

-- The results of a number of calls, one after the other.
pub receive_times :
    (c : Crates) (memchr : ℕ → Bytes → Option ℕ) → ℕ → Reader → List ParseResult × Reader
unfolding receive
receive_times c memchr zero r = ([], r)
receive_times c memchr (suc n) r =
    let (result, r') = receive c memchr r in
    let (results, r'') = receive_times c memchr n r' in (result ∷ results, r'')

-- The bytes of replies, one behind the other, and then the rest.
pub data Sends (rest : Bytes) : Bytes → List Reply → Type 0 where
  silent : Sends rest rest []
  sends :
      {s : Bytes} (i t : Bytes) (ms : List Message) (y : Reply) (ys : List Reply)
      → s ≡ i ++ t
      → length i < u64_max
      → OnWire [] i ms
      → Replies y nothing_yet ms
      → Sends rest t ys
      → Sends rest s (y ∷ ys)

-- The results are responses that show the replies, in order.
unfoldable pub AllShow : List ParseResult → List Reply → Type 0
AllShow [] [] = Unit
AllShow (ok (some response) ∷ results) (y ∷ ys) = (shown_response response ≡ y) × AllShow results ys
AllShow _ _ = ⊥

pub session-AllShow :
    (c : Crates) (memchr : ℕ → Bytes → Option ℕ) (rest : Bytes) (r : Reader) (s : Bytes)
    (ys : List Reply)
    → CratesLaws c
    → MemchrLaws memchr
    → All Healthy r.fills
    → stream r ≡ s
    → Sends rest s ys
    → AllShow (receive_times c memchr (length ys) r).0 ys
      × (stream (receive_times c memchr (length ys) r).1 ≡ rest)
      × All Healthy (receive_times c memchr (length ys) r).1.fills
unfolding receive_times AllShow
session-AllShow c memchr rest r s [] laws found healthy comes silent = (tt, comes, healthy)
session-AllShow c memchr rest r s (_ ∷ _) laws found healthy comes
      (sends i t ms y ys splits small wire replied later) =
    let (response, received, shows) =
      receive-Received c memchr r i t ms y laws found healthy wire replied (comes ∙ splits) small in
    let (rest_shows, left, healthy') =
      session-AllShow c memchr rest (receive c memchr r).1 t ys laws found received.healthy
        received.left later in
    (rw received.result (shows, rest_shows), left, healthy')

-- Liveness of a session: if the source carries the bytes of replies, one behind the other, as many
-- calls of `receive` return them all, in order and complete, and leave what is behind them. The source
-- does not fail, but it may cut the bytes anywhere and be interrupted anywhere. The bytes of each
-- reply fit in memory, and no field has the key `binary`.
pub receive_times-AllShow :
    (c : Crates) (memchr : ℕ → Bytes → Option ℕ) (r : Reader) (rest : Bytes) (ys : List Reply)
    → CratesLaws c
    → MemchrLaws memchr
    → All Healthy r.fills
    → Sends rest (stream r) ys
    → AllShow (receive_times c memchr (length ys) r).0 ys
      × (stream (receive_times c memchr (length ys) r).1 ≡ rest)
receive_times-AllShow c memchr r rest ys laws found healthy sent =
    let (shows, left, _) =
      session-AllShow c memchr rest r (stream r) ys laws found healthy refl sent in
    (shows, left)
