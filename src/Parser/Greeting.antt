-- ===== src/Parser/Greeting.antt =====
-- `greeting` of src/parser.rs: which bytes are a greeting, in both directions.
use mpd_protocol.Prelude.{◌≡◌, ◌≢◌, ◌↔◌, refl, ap, ◌∙◌, [], ◌∷◌, ◌++◌, AllTest, Bytes, codes}
use mpd_protocol.Std.Utf8.{Str, from_utf8}
use mpd_protocol.Nom.Laws.{NomOps, NomLaws, done, and_then, accept}
use mpd_protocol.Nom.Reference.{nom, tag, take_while, take_while1, char}
use mpd_protocol.Nom.Unique.{by_reference}
use mpd_protocol.Parser.{greeting, not_newline}
use mpd_protocol.Parser.Wire.{IsLine}
use mpd_protocol.Parser.Inversion.{
  delimited-eq-done, accepted_text-eq-done, take_while1-eq-done, tag-eq-done, char-eq-done,
}

abbrev pub greeting_bytes : Bytes → Bytes → Bytes
greeting_bytes version rest = codes "OK MPD " ++ (version ++ b'\n' ∷ rest)

-- The input is a greeting that names the version, and then the rest.
abbrev pub Greets : Bytes → Bytes → Str → Type 0
Greets i rest version = (b : Bytes) × (i ≡ greeting_bytes b rest) × (b ≢ []) × IsLine b version

take_while-stops :
    (b r : Bytes)
    → AllTest not_newline b
    → take_while not_newline (b ++ b'\n' ∷ r) ≡ done (b'\n' ∷ r) b
unfolding take_while
take_while-stops [] r h = refl
take_while-stops (c ∷ b) r (hc, h) = rw (hc, take_while-stops b r h) refl

greeting-Greets : (i : Bytes) {r : Bytes} {v : Str} → greeting nom i ≡ done r v → Greets i r v
unfolding greeting
greeting-Greets i h =
    let (j, k, x, y, first, text, end) =
      delimited-eq-done (tag (codes "OK MPD "))
        (λ i. and_then (take_while1 not_newline i) (λ a. accept (from_utf8 a))) (char b'\n') i h in
    let (b, scanned, valid) = accepted_text-eq-done (take_while1 not_newline j) text in
    let (split, ne, all) = take_while1-eq-done not_newline j scanned in
    (
      b,
      rw (tag-eq-done (codes "OK MPD ") i first, split, char-eq-done b'\n' k end) refl,
      ne,
      (all, valid),
    )

Greets-greeting :
    (r b : Bytes) {v : Str} → b ≢ [] → IsLine b v → greeting nom (greeting_bytes b r) ≡ done r v
unfolding greeting tag take_while1 char
Greets-greeting r [] ne h = absurd (ne refl)
Greets-greeting r (c ∷ b) {v} ne ((hc, h), valid) =
    rw (hc) (rw (take_while-stops b r h) (rw valid refl))

-- With any `nom` that does what it documents, `greeting` accepts exactly the lines `OK MPD `, a version
-- that is not empty and a newline, leaves what is behind the newline, and returns the version, which is
-- valid UTF-8.
pub greeting-eq-done_iff :
    {n : NomOps} (i r : Bytes) (v : Str) → NomLaws n → (greeting n i ≡ done r v) ↔ Greets i r v
greeting-eq-done_iff i r v laws =
    by_reference (λ k. (greeting k i ≡ done r v) ↔ Greets i r v) laws
      (
        greeting-Greets i,
        λ (b, splits, ne, line). ap (greeting nom) splits ∙ Greets-greeting r b ne line,
      )
