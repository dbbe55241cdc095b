-- ===== src/Codec/Connect/Pieces.antt =====
-- `MpdCodec::connect` of src/codec.rs on a greeting that comes in one read, in two, or not to its end,
-- next to `connect` of src/sync.rs on the same bytes.
use mpd_protocol.Prelude.{
  ℕ, zero, suc, ◌+◌, ◌-◌, ◌≤◌, ◌<◌, ◌≡◌, ◌≢◌, refl, sym, ap, ◌∙◌, subst, false, [], ◌∷◌, ◌++◌,
  arith, ◌==◌, Bool-cases, inl, inr, length, length-append, take, take-append, drop, All, Bytes,
}
use mpd_protocol.Std.Utf8.{Str}
use mpd_protocol.Errors.{invalid_message}
use mpd_protocol.Nom.Laws.{NomLaws, done, incomplete, error}
use mpd_protocol.Crates.{Crates}
use mpd_protocol.Parser.{greeting}
use mpd_protocol.Parser.Greeting.{Greets, greeting-eq-done_iff}
use mpd_protocol.Sync.BufRead.{Reader, stream}
use mpd_protocol.Sync.Stream.{Healthy}
use mpd_protocol.Sync.Connect as Sync
use mpd_protocol.Sync.Connect.Handshake.{connect-Greets, connect-incomplete}
use mpd_protocol.Codec.{new}
use mpd_protocol.Codec.Connect.{
  read_bytes, AsyncRead, AsyncReadLaws, panicked, empty_greeting, greeting_length, overwrite,
  connected, refused, out_of_fuel, on_greeting, connect_loop, connect,
}
use mpd_protocol.Codec.Connect.Returns.{follow, length-empty_greeting, length-overwrite}
use mpd_protocol.Codec.Connect.Rounds.{
  round_beyond, greeting-cut, greeting-other, round-loop, first_round,
}

-- A greeting that comes whole in the first read, with any bytes behind it: both interfaces connect and
-- name its version. `connect` of src/sync.rs leaves the bytes behind it to be read; `MpdCodec::connect`
-- has taken them off the IO object with the greeting.
pub connect_whole :
    (c : Crates) {S : Type 0} (a : AsyncRead S) (s s' : S) (r : Reader) (b rest : Bytes) (v : Str)
    (fuel : ℕ)
    → NomLaws c.nom
    → All Healthy r.fills
    → Greets b rest v
    → length b ≤ greeting_length
    → a.read s greeting_length ≡ (read_bytes b, s')
    → stream r ≡ b
    → (connect c a (suc fuel) s ≡ connected s' (new c v))
      × ((Sync.connect c.nom r).0 ≡ Sync.connected v)
      × (stream (Sync.connect c.nom r).1 ≡ rest)
unfolding on_greeting
connect_whole c a s s' r b rest v fuel laws healthy greets fits gave comes =
    let parsed : greeting c.nom b ≡ done rest v = (greeting-eq-done_iff b rest v laws).1 greets in
    let (version, left) =
      connect-Greets c.nom r rest v laws healthy
        (subst (λ i. Greets i rest v) (sym comes) greets) in
    (first_round c a fuel b s s' gave fits ∙ rw parsed refl, version, left)

-- A greeting that comes in two reads is refused by `MpdCodec::connect`, wherever it is cut, unless the
-- second piece begins with `O`: the second read overwrites the first. `connect` of src/sync.rs connects
-- on the same bytes. The greeting fits in the buffer.
pub connect_cut :
    (c : Crates) {S : Type 0} (a : AsyncRead S) (s s' s'' : S) (r : Reader) (p : Bytes) (x : ℕ)
    (q : Bytes) (v : Str) (fuel : ℕ)
    → NomLaws c.nom
    → All Healthy r.fills
    → Greets (p ++ x ∷ q) [] v
    → x ≢ b'O'
    → length (p ++ x ∷ q) ≤ greeting_length
    → a.read s greeting_length ≡ (read_bytes p, s')
    → a.read s' greeting_length ≡ (read_bytes (x ∷ q), s'')
    → stream r ≡ p ++ x ∷ q
    → (connect c a (suc (suc fuel)) s ≡ refused invalid_message)
      × ((Sync.connect c.nom r).0 ≡ Sync.connected v)
unfolding on_greeting
connect_cut c a s s' s'' r p x q v fuel laws healthy greets other fits first second comes =
    let waits = greeting-cut p x q v laws greets in
    let (version, left) =
      connect-Greets c.nom r [] v laws healthy (subst (λ i. Greets i [] v) (sym comes) greets) in
    let sizes = length-append p (x ∷ q) in
    let first_result = first_round c a (suc fuel) p s s' first (omega arith) in
    let second_result =
      round-loop c a fuel (x ∷ q) s' s'' (length p) (overwrite p empty_greeting)
        (length-overwrite p empty_greeting (omega (arith, length-empty_greeting))
          ∙ length-empty_greeting)
        second (omega arith) in
    let not_greeting : greeting c.nom
          (take (length p + length (x ∷ q)) (overwrite (x ∷ q) (overwrite p empty_greeting)))
        ≡ error =
      take_other (length p + length (x ∷ q)) (omega arith) in
    (
      elim (Bool-cases (length p == greeting_length - 1)) [
        | inl full ↦ first_result ∙ rw waits (rw full refl)
        | inr room ↦ first_result ∙ rw waits (rw room (second_result ∙ rw not_greeting refl))
      ],
      version,
    )
  where
    take_other :
        (k : ℕ)
        → 1 ≤ k
        → greeting c.nom (take k (overwrite (x ∷ q) (overwrite p empty_greeting))) ≡ error
    take_other zero h = absurd (omega arith)
    take_other (suc k) h =
        greeting-other x (take k (q ++ drop (length (x ∷ q)) (overwrite p empty_greeting))) laws
          other

-- A round at the end of the source changes nothing.
module _ (c : Crates) {S : Type 0} (a : AsyncRead S) (s : S)
    (ended : a.read s greeting_length ≡ (read_bytes [], s)) where
  loop_at_eof :
      (fuel read : ℕ) (buf : Bytes)
      → length buf ≡ greeting_length
      → read ≤ greeting_length
      → read ≢ greeting_length - 1
      → greeting c.nom (take read buf) ≡ incomplete
      → connect_loop c a fuel s read buf ≡ out_of_fuel
  unfolding on_greeting
  loop_at_eof zero read buf size inside room waits = unfold connect_loop in refl
  loop_at_eof (suc fuel) read buf size inside room waits =
      let not_full : (read == greeting_length - 1) ≡ false = ground arith in
      round-loop c a fuel [] s s read buf size ended (omega arith)
      ∙ ap (λ k. follow c a fuel (on_greeting c a (greeting c.nom (take k buf)) s k buf))
          (let nothing_read : read + 0 ≡ read = omega arith in nothing_read)
      ∙ rw waits (rw not_full (loop_at_eof fuel read buf size inside room waits))

-- A source that ends inside the greeting, after one read of fewer than 31 bytes: `MpdCodec::connect` never
-- returns, that is, no fuel is enough, since a read at the end gives no byte and the loop asks again.
-- `connect` of src/sync.rs reports an invalid message on the same bytes.
pub connect_at_eof :
    (c : Crates) {S : Type 0} (a : AsyncRead S) (s s' : S) (r : Reader) (p : Bytes) (x : ℕ)
    (q : Bytes) (v : Str) (fuel : ℕ)
    → NomLaws c.nom
    → All Healthy r.fills
    → Greets (p ++ x ∷ q) [] v
    → length p < greeting_length - 1
    → a.read s greeting_length ≡ (read_bytes p, s')
    → a.read s' greeting_length ≡ (read_bytes [], s')
    → stream r ≡ p
    → (connect c a fuel s ≡ out_of_fuel) × ((Sync.connect c.nom r).0 ≡ Sync.refused invalid_message)
unfolding on_greeting
connect_at_eof c a s s' r p x q v fuel laws healthy greets short first ended comes =
    let waits = greeting-cut p x q v laws greets in
    (
      by_fuel waits fuel,
      connect-incomplete c.nom r laws healthy (ap (greeting c.nom) comes ∙ waits),
    )
  where
    by_fuel : greeting c.nom p ≡ incomplete → (fuel : ℕ) → connect c a fuel s ≡ out_of_fuel
    by_fuel waits zero = unfold connect connect_loop in refl
    by_fuel waits (suc fuel) =
        let not_full : (length p == greeting_length - 1) ≡ false = ground arith in
        first_round c a fuel p s s' first (omega arith)
        ∙ rw waits (
            rw not_full (
              loop_at_eof c a s' ended fuel (length p) (overwrite p empty_greeting)
                (length-overwrite p empty_greeting (omega (arith, length-empty_greeting))
                  ∙ length-empty_greeting)
                (omega arith) (ground arith)
                (ap (greeting c.nom) (take-append p (drop (length p) empty_greeting)) ∙ waits)))

-- A greeting of more than 32 bytes that fills the buffer in the first read: the next read that gives a byte
-- makes `MpdCodec::connect` panic, since the cut `&greeting[..read]` is out of range then. `connect` of
-- src/sync.rs connects on the same bytes.
pub connect_long :
    (c : Crates) {S : Type 0} (a : AsyncRead S) (s s' s'' : S) (r : Reader) (p : Bytes) (x : ℕ)
    (q : Bytes) (v : Str) (y : ℕ) (b : Bytes) (fuel : ℕ)
    → NomLaws c.nom
    → AsyncReadLaws a
    → All Healthy r.fills
    → Greets (p ++ x ∷ q) [] v
    → length p ≡ greeting_length
    → a.read s greeting_length ≡ (read_bytes p, s')
    → a.read s' greeting_length ≡ (read_bytes (y ∷ b), s'')
    → stream r ≡ p ++ x ∷ q
    → (connect c a (suc (suc fuel)) s ≡ panicked) × ((Sync.connect c.nom r).0 ≡ Sync.connected v)
unfolding on_greeting
connect_long c a s s' s'' r p x q v y b fuel laws read_laws healthy greets full first second comes =
    let waits = greeting-cut p x q v laws greets in
    let (version, left) =
      connect-Greets c.nom r [] v laws healthy (subst (λ i. Greets i [] v) (sym comes) greets) in
    let not_full : (length p == greeting_length - 1) ≡ false = ground arith in
    let size : length (overwrite p empty_greeting) ≡ greeting_length =
      length-overwrite p empty_greeting (omega (arith, length-empty_greeting))
      ∙ length-empty_greeting in
    (
      first_round c a (suc fuel) p s s' first (omega arith)
          ∙ rw waits (
              rw not_full (
                round_beyond c a fuel (y ∷ b) s' s'' (length p) (overwrite p empty_greeting) size
                  second (read_laws.read_fits s' s'' greeting_length (y ∷ b) second)
                  (omega arith))),
      version,
    )
