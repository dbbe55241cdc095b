-- ===== src/Sync/Connect/Handshake.antt =====
-- `connect` of src/sync.rs against the description of a greeting in `Parser/Greeting`.
use mpd_protocol.Prelude.{
  ℕ, ◌≡◌, ◌↔◌, refl, sym, ap, ◌∙◌, subst, false, Option, none, some, List, [], ◌∷◌, ◌++◌,
  append_assoc, append-nil, arith, ◌==◌, Bool-cases, inl, inr, All, AllTest, Bytes, codes,
}
use mpd_protocol.Std.Utf8.{Str}
use mpd_protocol.Errors.{IoError}
use mpd_protocol.Nom.Laws.{NomOps, NomLaws, IResult, done, incomplete, error, failure}
use mpd_protocol.Parser.{greeting, not_newline}
use mpd_protocol.Parser.Greeting.{Greets, greeting_bytes, greeting-eq-done_iff}
use mpd_protocol.Errors.{invalid_message}
use mpd_protocol.Parser.Stable.{extend}
use mpd_protocol.Parser.Streaming.{greeting-Stable}
use mpd_protocol.Sync.BufRead.{Fill, bytes, interruption, failure, Reader, fills_bytes, stream}
use mpd_protocol.Sync.Stream.{
  contains, lines-contains, lines-lacks, first_line, after_line, first_line-append-after_line,
  Healthy,
}
use mpd_protocol.Sync.Connect.{
  std_read_fills, std_read_from, connected, refused, on_greeting, on_line, connect,
}

-- What reading one line off a stream gives.
record StdLine (d : ℕ) (s buf : Bytes) (out : Option IoError × Reader × Bytes) : Type 0 where
  no_error : out.0 ≡ none
  buffer : out.2 ≡ buf ++ first_line d s
  left : stream out.1 ≡ after_line d s

fills-StdLine :
    (d : ℕ) (fs : List Fill) (buf : Bytes)
    → All Healthy fs
    → StdLine d (fills_bytes fs) buf (std_read_fills d fs buf)
unfolding std_read_fills Healthy
fills-StdLine d [] buf h = record { no_error = refl; buffer = sym (append-nil buf); left = refl }
fills-StdLine d (interruption ∷ fs) buf (h, hs) = fills-StdLine d fs buf hs
fills-StdLine d (failure e ∷ fs) buf (h, hs) = absurd h
fills-StdLine d (bytes [] ∷ fs) buf (h, hs) = absurd (h refl)
fills-StdLine d (bytes (x ∷ b) ∷ fs) buf (h, hs) = elim (Bool-cases (contains d (x ∷ b))) [
  | inl here ↦
      let (l, r) = lines-contains d (x ∷ b) (fills_bytes fs) here in
      rw here (record { no_error = refl; buffer = ap (λ t. buf ++ t) (sym l); left = sym r })
  | inr later ↦
      let (l, r) = lines-lacks d (x ∷ b) (fills_bytes fs) later in
      let further = fills-StdLine d fs (buf ++ x ∷ b) hs in
      rw later (record {
        no_error = further.no_error;
        buffer =
            further.buffer
            ∙ append_assoc buf (x ∷ b) (first_line d (fills_bytes fs))
            ∙ ap (λ t. buf ++ t) (sym l);
        left = further.left ∙ sym r;
      })
]

read-StdLine :
    (d : ℕ) (b : Bytes) (fs : List Fill)
    → All Healthy fs
    → StdLine d (b ++ fills_bytes fs) [] (std_read_from d b fs [])
unfolding std_read_from
read-StdLine d [] fs h = fills-StdLine d fs [] h
read-StdLine d (x ∷ b) fs h = fills-StdLine d (bytes (x ∷ b) ∷ fs) [] (unfold Healthy in (cc, h))

after-first_line : (d : ℕ) (s : Bytes) → after_line d (first_line d s) ≡ []
after-first_line d [] = refl
after-first_line d (x ∷ s) = elim (Bool-cases (x == d)) [
  | inl here ↦ rw (here, here) refl
  | inr later ↦ rw (later, later) (after-first_line d s)
]

version_lines :
    (b r : Bytes)
    → AllTest not_newline b
    → (first_line b'\n' (b ++ b'\n' ∷ r) ≡ b ++ b'\n' ∷ [])
      × (after_line b'\n' (b ++ b'\n' ∷ r) ≡ r)
version_lines [] r h = (refl, refl)
version_lines (x ∷ b) r (hx, h) =
    let later : (x == b'\n') ≡ false = ground arith in
    let (l, t) = version_lines b r h in (rw later (ap (λ s. x ∷ s) l), rw later t)

on_greeting-eq-connected :
    (res : IResult Str) {v : Str} → on_greeting res ≡ connected v → (r : Bytes) × (res ≡ done r v)
unfolding on_greeting
on_greeting-eq-connected (done r w) h = (r, ap (done r) (let same : w ≡ _ = cc in same))
on_greeting-eq-connected incomplete h = cc
on_greeting-eq-connected error h = cc
on_greeting-eq-connected failure h = cc

-- What `connect` does on a source that does not fail: it hands one line to the parser.
connect-line :
    (n : NomOps) (r : Reader)
    → All Healthy r.fills
    → ((connect n r).0 ≡ on_greeting (greeting n (first_line b'\n' (stream r))))
      × (stream (connect n r).1 ≡ after_line b'\n' (stream r))
unfolding connect on_line
connect-line n r h =
    let line = read-StdLine b'\n' r.buffered r.fills h in
    by_line n (std_read_from b'\n' r.buffered r.fills []) line.no_error line.buffer line.left
  where
    by_line :
        (n : NomOps) (out : Option IoError × Reader × Bytes) {l s : Bytes}
        → out.0 ≡ none
        → out.2 ≡ l
        → stream out.1 ≡ s
        → ((on_line n out).0 ≡ on_greeting (greeting n l)) × (stream (on_line n out).1 ≡ s)
    by_line n (none, r, line) e b t = (ap (λ u. on_greeting (greeting n u)) b, t)
    by_line n (some x, r, line) e b t = cc

Greets-line :
    (s rest : Bytes) (v : Str)
    → Greets (first_line b'\n' s) rest v
    → Greets s (after_line b'\n' s) v
Greets-line s rest v (b, splits, ne, (all, valid)) =
    let ends : rest ≡ [] =
      sym (version_lines b rest all).1
      ∙ ap (after_line b'\n') (sym splits)
      ∙ after-first_line b'\n' s in
    (
      b,
      sym (first_line-append-after_line b'\n' s)
          ∙ ap (λ u. u ++ after_line b'\n' s) (splits ∙ ap (greeting_bytes b) ends)
          ∙ ap (λ u. codes "OK MPD " ++ u) (append_assoc b (b'\n' ∷ []) (after_line b'\n' s)),
      ne,
      (all, valid),
    )

line-Greets : (s rest : Bytes) (v : Str) → Greets s rest v → Greets (first_line b'\n' s) [] v
line-Greets s rest v (b, splits, ne, (all, valid)) = (
  b,
  ap (first_line b'\n') splits ∙ ap (λ u. codes "OK MPD " ++ u) (version_lines b rest all).0,
  ne,
  (all, valid),
)

-- On a source that does not fail, `connect` returns a version exactly if the stream begins with a
-- greeting that names it, and then what is left to read is what stands behind the greeting: no byte of
-- the first response is lost, however the source cuts the bytes.
pub connect-eq-connected_iff :
    (n : NomOps) (r : Reader) (v : Str)
    → NomLaws n
    → All Healthy r.fills
    → ((connect n r).0 ≡ connected v) ↔ Greets (stream r) (stream (connect n r).1) v
connect-eq-connected_iff n r v laws h =
    let (result, left) = connect-line n r h in
    let line = first_line b'\n' (stream r) in
    (
      λ e.
          let (rest, accepted) = on_greeting-eq-connected (greeting n line) (sym result ∙ e) in
          subst (λ s. Greets (stream r) s v) (sym left)
            (Greets-line (stream r) rest v ((greeting-eq-done_iff line rest v laws).0 accepted)),
      λ greets.
          result
          ∙ accepted_line (greeting n line) (
              (greeting-eq-done_iff line [] v laws).1
                (line-Greets (stream r) (stream (connect n r).1) v greets)),
    )
  where
    accepted_line : (res : IResult Str) → res ≡ done [] v → on_greeting res ≡ connected v
    accepted_line res e = unfold on_greeting in rw e

-- The same from the bytes alone.
pub connect-Greets :
    (n : NomOps) (r : Reader) (rest : Bytes) (v : Str)
    → NomLaws n
    → All Healthy r.fills
    → Greets (stream r) rest v
    → ((connect n r).0 ≡ connected v) × (stream (connect n r).1 ≡ rest)
connect-Greets n r rest v laws h greets =
    let (b, splits, _, (all, _)) = greets in
    let left : stream (connect n r).1 ≡ rest =
      (connect-line n r h).1 ∙ ap (after_line b'\n') splits ∙ (version_lines b rest all).1 in
    (
      (connect-eq-connected_iff n r v laws h).1
          (subst (λ t. Greets (stream r) t v) (sym left) greets),
      left,
    )

-- A stream on which `greeting` asks for more is refused.
pub connect-incomplete :
    (n : NomOps) (r : Reader)
    → NomLaws n
    → All Healthy r.fills
    → greeting n (stream r) ≡ incomplete
    → (connect n r).0 ≡ refused invalid_message
unfolding on_greeting
connect-incomplete n r laws h waits =
    let line = first_line b'\n' (stream r) in
    let behind = after_line b'\n' (stream r) in
    (connect-line n r h).0
    ∙ ap on_greeting (elim ((greeting-Stable laws).at line behind) [
      | inl waits_too ↦ waits_too
      | inr same ↦
          extend-incomplete (greeting n line) behind
            (sym same ∙ ap (greeting n) (first_line-append-after_line b'\n' (stream r)) ∙ waits)
    ])
  where
    extend-incomplete : (g : IResult Str) (x : Bytes) → extend x g ≡ incomplete → g ≡ incomplete
    extend-incomplete (done r v) x e = cc
    extend-incomplete incomplete x e = refl
    extend-incomplete error x e = cc
    extend-incomplete failure x e = cc
