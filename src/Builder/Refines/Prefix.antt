-- ===== src/Builder/Refines/Prefix.antt =====
-- `ResponseBuilder::parse` on a prefix of what a server sends: no error comes too early.
use mpd_protocol.Prelude.{
  ◌<◌, ◌≡◌, ◌⊎◌, inl, inr, refl, none, some, subst, List, ◌++◌, length, Bytes,
}
use mpd_protocol.Std.Number.{u64_max}
use mpd_protocol.Crates.{Crates, CratesLaws}
use mpd_protocol.Parser.Wire.{Message}
use mpd_protocol.Response.{Response}
use mpd_protocol.Builder.{
  ParseResult, ok, err, panicked, out_of_fuel, ResponseBuilder, parse_buffer,
}
use mpd_protocol.Builder.Streaming.{resume, parse_buffer-append}
use mpd_protocol.Builder.Invariant.{WellFormed}
use mpd_protocol.Builder.Abstract.{Reply, Replies, OnWire, shown_response, progress}
use mpd_protocol.Builder.Refines.Run.{Delivered, parse_buffer-Delivered}

-- No response yet, or one that shows the reply.
abbrev pub SoFar : Reply → ParseResult → Type 0
SoFar y result =
    (result ≡ ok none)
    ⊎ ((response : Response) × (result ≡ ok (some response)) × (shown_response response ≡ y))

resumed-SoFar :
    (c : Crates) (r x : Bytes) (y : Reply) (p : ParseResult × ResponseBuilder c × Bytes)
    → Delivered c r y (resume c x p)
    → SoFar y p.0
unfolding resume
resumed-SoFar c r x y (ok none, b, left) d = inl refl
resumed-SoFar c r x y (ok (some response), b, left) d = inr (d.response, d.result, d.shows)
resumed-SoFar c r x y (err z, b, left) d = let clash = d.result in cc
resumed-SoFar c r x y (panicked, b, left) d = let clash = d.result in cc
resumed-SoFar c r x y (out_of_fuel, b, left) d = let clash = d.result in cc

-- On any part of what a server sends, from the start, there is no error and no panic: if bytes can follow
-- such that all of them begin with the messages of a reply, then the parser asks for more or
-- returns a response that shows this reply. The builder may be inside a response, whose progress the
-- messages continue; the bytes fit in memory, and no field has the key `binary`.
pub parse_buffer-SoFar :
    {c : Crates} (b : ResponseBuilder c) (i x r : Bytes) (ms : List Message) (y : Reply)
    → CratesLaws c
    → WellFormed b.state
    → OnWire r (i ++ x) ms
    → Replies y (progress b.state) ms
    → length (i ++ x) < u64_max
    → SoFar y (parse_buffer c b i).0
parse_buffer-SoFar {c} b i x r ms y laws wf wire replied small =
    resumed-SoFar c r x y (parse_buffer c b i) (
      subst (Delivered c r y) (parse_buffer-append b i x laws small)
        (parse_buffer-Delivered b (i ++ x) r ms y laws wf wire replied small))
