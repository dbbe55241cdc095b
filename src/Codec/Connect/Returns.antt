-- ===== src/Codec/Connect/Returns.antt =====
-- When the loop of `MpdCodec::connect` (src/codec.rs) returns, and when it does not.
use mpd_protocol.Prelude.{
  ℕ, zero, suc, ◌+◌, ◌-◌, ◌≤◌, ◌<◌, ◌≡◌, ◌≢◌, refl, sym, ap, ◌∙◌, [], ◌∷◌, arith, ◌==◌, leb,
  Bool-cases, inl, inr, length, length-append, length-drop, take, drop, Bytes,
}
use mpd_protocol.Std.Utf8.{Str}
use mpd_protocol.Nom.Laws.{IResult, done, incomplete, error, failure}
use mpd_protocol.Crates.{Crates}
use mpd_protocol.Parser.{greeting}
use mpd_protocol.Codec.Connect.{
  ReadOutcome, read_bytes, read_failed, AsyncRead, AsyncReadLaws, empty_greeting, greeting_length,
  overwrite, zeros, ConnectResult, panicked, out_of_fuel, ConnectRound, connect_again, connect_stop,
  on_greeting, parse_read, on_outcome, connect_loop, connect,
}

-- No read is at the end of the source: each that is given room gives a byte or an error.
pub record Lively {S : Type 0} (a : AsyncRead S) : Type 0 where
  pub never_empty : (s s' : S) (n : ℕ) → 1 ≤ n → a.read s n ≢ (read_bytes [], s')

pub length-empty_greeting : length empty_greeting ≡ greeting_length
unfolding empty_greeting zeros
length-empty_greeting = refl

pub length-overwrite :
    (b buf : Bytes) → length b ≤ length buf → length (overwrite b buf) ≡ length buf
length-overwrite b buf h =
    omega (arith, length-append b (drop (length b) buf), length-drop (length b) buf)

module _ (c : Crates) {S : Type 0} (a : AsyncRead S) where
  -- A round that goes on has read more, within the buffer.
  on_greeting-again :
      (g : IResult Str) (s : S) (read : ℕ) (buf : Bytes) {s' : S} {read' : ℕ} {buf' : Bytes}
      → on_greeting c a g s read buf ≡ connect_again s' read' buf'
      → (s' ≡ s) × (read' ≡ read) × (buf' ≡ buf)
  unfolding on_greeting
  on_greeting-again (done rest version) s read buf e = cc
  on_greeting-again incomplete s read buf e = ground arith
  on_greeting-again error s read buf e = cc
  on_greeting-again failure s read buf e = cc

  parse_read-again :
      (s : S) (read : ℕ) (buf : Bytes) {s' : S} {read' : ℕ} {buf' : Bytes}
      → parse_read c a s read buf ≡ connect_again s' read' buf'
      → (read ≤ length buf) × (s' ≡ s) × (read' ≡ read) × (buf' ≡ buf)
  unfolding parse_read
  parse_read-again s read buf e = elim (Bool-cases (leb read (length buf))) [
    | inl inside ↦
        let (kept, grown, same) =
          on_greeting-again (greeting c.nom (take read buf)) s read buf (rw inside at e) in
        (ground arith, kept, grown, same)
    | inr outside ↦ cc (rw outside at e)
  ]

  outcome-again :
      (o : ReadOutcome × S) (read : ℕ) (buf : Bytes) {s' : S} {read' : ℕ} {buf' : Bytes}
      → ((b : Bytes) (s : S) → o ≡ (read_bytes b, s) → (1 ≤ length b) × (length b ≤ length buf))
      → on_outcome c a o read buf ≡ connect_again s' read' buf'
      → (read < read') × (read' ≤ length buf) × (length buf' ≡ length buf)
  unfolding on_outcome
  outcome-again (read_failed z, s) read buf h e = cc
  outcome-again (read_bytes b, s) read buf h e =
      let (some_read, fits) = h b s refl in
      let (inside, moved, grown, same) = parse_read-again s (read + length b) (overwrite b buf) e in
      let kept = length-overwrite b buf fits in (omega arith, omega arith, ap length same ∙ kept)

  -- A round of the loop panics only where it has read more than the buffer holds.
  on_greeting-stop :
      (g : IResult Str) (s : S) (read : ℕ) (buf : Bytes) {result : ConnectResult c S}
      → on_greeting c a g s read buf ≡ connect_stop result
      → (result ≢ out_of_fuel) × (result ≢ panicked)
  unfolding on_greeting
  on_greeting-stop (done rest version) s read buf e = (cc, cc)
  on_greeting-stop incomplete s read buf e = elim (Bool-cases (read == greeting_length - 1)) [
    | inl full ↦ let stopped = rw full at e in (cc, cc)
    | inr other ↦ cc (rw other at e)
  ]
  on_greeting-stop error s read buf e = (cc, cc)
  on_greeting-stop failure s read buf e = (cc, cc)

  outcome-stop :
      (o : ReadOutcome × S) (read : ℕ) (buf : Bytes) {result : ConnectResult c S}
      → on_outcome c a o read buf ≡ connect_stop result
      → (result ≢ out_of_fuel)
        × (((b : Bytes) (s : S)
              → o ≡ (read_bytes b, s)
              → read + length b ≤ length (overwrite b buf))
            → result ≢ panicked)
  unfolding on_outcome parse_read
  outcome-stop (read_failed z, s) read buf e = (cc, λ _. cc)
  outcome-stop (read_bytes b, s) read buf e =
      let read' = read + length b in
      let buf' = overwrite b buf in
      elim (Bool-cases (leb read' (length buf'))) [
        | inl inside ↦
            let (fueled, unpanicked) =
              on_greeting-stop (greeting c.nom (take read' buf')) s read' buf' (rw inside at e) in
            (fueled, λ _. unpanicked)
        | inr outside ↦
            let stopped = rw outside at e in
            (cc, λ fits. let inside = fits b s refl in absurd (ground arith))
      ]

  abbrev pub follow : ℕ → ConnectRound c a → ConnectResult c S
  follow fuel (connect_again s read buf) = connect_loop c a fuel s read buf
  follow fuel (connect_stop result) = result

  follow_lem :
      (P : ConnectResult c S → Type 0) (fuel : ℕ) (round : ConnectRound c a)
      → ((s : S) (read : ℕ) (buf : Bytes)
          → round ≡ connect_again s read buf
          → P (connect_loop c a fuel s read buf))
      → ((result : ConnectResult c S) → round ≡ connect_stop result → P result)
      → P (follow fuel round)
  follow_lem P fuel (connect_again s read buf) again stop = again s read buf refl
  follow_lem P fuel (connect_stop result) again stop = stop result refl

  loop-out_of_fuel :
      (laws : AsyncReadLaws a) (lively : Lively a) (fuel : ℕ) (s : S) (read : ℕ) (buf : Bytes)
      → 1 ≤ length buf
      → read ≤ length buf
      → length buf < read + fuel
      → connect_loop c a fuel s read buf ≢ out_of_fuel
  unfolding connect_loop
  loop-out_of_fuel laws lively zero s read buf holds inside enough = absurd (omega arith)
  loop-out_of_fuel laws lively (suc fuel) s read buf holds inside enough =
      follow_lem (λ result. result ≢ out_of_fuel) fuel
        (on_outcome c a (a.read s (length buf)) read buf)
        (λ s' read' buf' e.
          let (grown, inside', kept) =
            outcome-again (a.read s (length buf)) read buf
              (λ b t gave. (
                positive b (λ empty.
                    lively.never_empty s t (length buf) holds
                      (gave ∙ ap (λ b. (read_bytes b, t)) empty)),
                laws.read_fits s t (length buf) b gave,
              ))
              e in
          loop-out_of_fuel laws lively fuel s' read' buf' (omega arith) (omega arith) (omega arith))
        (λ result e. (outcome-stop (a.read s (length buf)) read buf e).0)
    where
      positive : (b : Bytes) → b ≢ [] → 1 ≤ length b
      positive [] h = absurd (h refl)
      positive (x ∷ b) h = omega arith

-- Termination: if no read is at the end of the source, `connect` returns or panics after at most 33 reads:
-- each read gives a byte, and the loop does not go on behind the 32 bytes of its buffer.
pub connect_total :
    (c : Crates) {S : Type 0} (a : AsyncRead S) (s : S)
    → AsyncReadLaws a
    → Lively a
    → connect c a (suc greeting_length) s ≢ out_of_fuel
unfolding connect
connect_total c a s laws lively =
    loop-out_of_fuel c a laws lively (suc greeting_length) s 0 empty_greeting
      (omega (arith, length-empty_greeting)) (omega arith) (omega (arith, length-empty_greeting))

-- A source that holds so many bytes at most.
pub record Holds {S : Type 0} (a : AsyncRead S) (size : S → ℕ) : Type 0 where
  pub shrinks :
      (s s' : S) (n : ℕ) (b : Bytes) → a.read s n ≡ (read_bytes b, s') → length b + size s' ≤ size s

outcome_bytes :
    (c : Crates) {S : Type 0} (a : AsyncRead S) (o : ReadOutcome × S) (read : ℕ) (buf : Bytes)
    {s' : S} {read' : ℕ} {buf' : Bytes}
    → on_outcome c a o read buf ≡ connect_again s' read' buf'
    → (b : Bytes) × (o ≡ (read_bytes b, s')) × (read' ≡ read + length b) × (buf' ≡ overwrite b buf)
unfolding on_outcome
outcome_bytes c a (read_failed z, s) read buf e = cc
outcome_bytes c a (read_bytes b, s) read buf e =
    let (inside, moved, grown, same) =
      parse_read-again c a s (read + length b) (overwrite b buf) e in
    (b, ap (λ t. (read_bytes b, t)) (sym moved), grown, same)

module _ (c : Crates) {S : Type 0} (a : AsyncRead S) (size : S → ℕ) (laws : AsyncReadLaws a)
    (held : Holds a size) where
  loop-panicked :
      (fuel : ℕ) (s : S) (read : ℕ) (buf : Bytes)
      → read + size s ≤ length buf
      → connect_loop c a fuel s read buf ≢ panicked
  unfolding connect_loop
  loop-panicked zero s read buf room = cc
  loop-panicked (suc fuel) s read buf room =
      let out = a.read s (length buf) in
      follow_lem c a (λ result. result ≢ panicked) fuel (on_outcome c a out read buf)
        (λ s' read' buf' e.
          let (b, gave, grown, same) = outcome_bytes c a out read buf e in
          let less = held.shrinks s s' (length buf) b gave in
          let kept = length-overwrite b buf (laws.read_fits s s' (length buf) b gave) in
          loop-panicked fuel s' read' buf' (omega (arith, ap length same)))
        (λ result e. (outcome-stop c a out read buf e).1 (λ b t gave.
          let less = held.shrinks s t (length buf) b gave in
          let kept = length-overwrite b buf (laws.read_fits s t (length buf) b gave) in
          omega arith))

-- No panic: if the source holds at most the 32 bytes of the buffer, the cut `&greeting[..read]` is in
-- range in every round, however many there are.
pub connect_safe :
    (c : Crates) {S : Type 0} (a : AsyncRead S) (size : S → ℕ) (s : S) (fuel : ℕ)
    → AsyncReadLaws a
    → Holds a size
    → size s ≤ greeting_length
    → connect c a fuel s ≢ panicked
unfolding connect
connect_safe c a size s fuel laws held small =
    loop-panicked c a size laws held fuel s 0 empty_greeting (omega (arith, length-empty_greeting))
