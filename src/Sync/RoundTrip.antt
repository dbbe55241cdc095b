-- ===== src/Sync/RoundTrip.antt =====
-- What a server prints for a reply, as `receive` of src/sync.rs reads it.
use mpd_protocol.Prelude.{ℕ, ◌<◌, ◌≡◌, Option, ◌++◌, length, All, Bytes}
use mpd_protocol.Std.Number.{u64_max}
use mpd_protocol.Crates.{Crates, CratesLaws}
use mpd_protocol.Response.{Response}
use mpd_protocol.Builder.Abstract.{Reply, shown_response}
use mpd_protocol.Builder.Encode.{Speakable, encode, encode-Replies}
use mpd_protocol.Builder.Print.{Sendable, print, print-OnWire}
use mpd_protocol.Sync.BufRead.{Reader, stream}
use mpd_protocol.Sync.{receive}
use mpd_protocol.Sync.Stream.{MemchrLaws, Healthy}
use mpd_protocol.Sync.Replies.{Received}
use mpd_protocol.Sync.Session.{receive-Received}

-- The round trip of a reply: a server prints it, the source carries the bytes, and `receive` returns a
-- response that shows it and leaves exactly what is behind it. The reply is one that the protocol can
-- express: it has a section or an error, its keys are letters, `_` and `-` and not `binary`, its values
-- are single lines of characters, its numbers have 64 bits, and its bytes fit in memory.
pub receive-print :
    (c : Crates) (memchr : ℕ → Bytes → Option ℕ) (r : Reader) (y : Reply) (rest : Bytes)
    → CratesLaws c
    → MemchrLaws memchr
    → All Healthy r.fills
    → Speakable y
    → All Sendable (encode y)
    → stream r ≡ print y ++ rest
    → length (print y) < u64_max
    → (response : Response) × Received rest response (receive c memchr r)
      × (shown_response response ≡ y)
receive-print c memchr r y rest laws found healthy speakable sendable comes small =
    receive-Received c memchr r (print y) rest (encode y) y laws found healthy
      (print-OnWire y sendable) (encode-Replies y speakable) comes small
