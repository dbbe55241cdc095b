-- ===== src/Tests/Greeting.antt =====
-- Greetings read by `MpdCodec::connect` of src/codec.rs.
use mpd_protocol.Prelude.{
  ℕ, zero, suc, ◌+◌, ◌≤◌, ◌≡◌, ◌≢◌, refl, List, [], ◌∷◌, arith, leb, if◌then◌else◌, Bool-cases, inl,
  inr, length, take, drop, Bytes, codes,
}
use mpd_protocol.Std.Utf8.{from_utf8}
use mpd_protocol.Errors.{invalid_message}
use mpd_protocol.Nom.Reference.{nom-NomLaws}
use mpd_protocol.Crates.{reference}
use mpd_protocol.Parser.Greeting.{Greets}
use mpd_protocol.Sync.BufRead.{Reader, bytes, stream}
use mpd_protocol.Sync.Stream.{Healthy-bytes}
use mpd_protocol.Sync.Connect as Sync
use mpd_protocol.Codec.{new}
use mpd_protocol.Codec.Connect.{
  ReadOutcome, read_bytes, AsyncRead, AsyncReadLaws, greeting_length, connected, refused, panicked,
  out_of_fuel, connect,
}
use mpd_protocol.Codec.Connect.Returns.{Lively, Holds, connect_total, connect_safe}
use mpd_protocol.Codec.Connect.Pieces.{connect_long, connect_whole, connect_cut, connect_at_eof}

-- A source of pieces: a read gives what fits of the first one, and nothing at the end.
abbrev pub read_piece : List Bytes → ℕ → ReadOutcome × List Bytes
read_piece [] n = (read_bytes [], [])
read_piece (b ∷ bs) n = (read_bytes (take n b), if leb (length b) n then bs else drop n b ∷ bs)

abbrev pub pieces : AsyncRead (List Bytes)
pieces = record { read = read_piece }

length-take_le : (n : ℕ) (b : Bytes) → length (take n b) ≤ n
length-take_le zero b = omega arith
length-take_le (suc n) [] = omega arith
length-take_le (suc n) (x ∷ b) = omega (arith, length-take_le n b)

pieces-AsyncReadLaws : AsyncReadLaws pieces
pieces-AsyncReadLaws = record { read_fits = fits }
  where
    fits :
        (s s' : List Bytes) (n : ℕ) (b : Bytes) → read_piece s n ≡ (read_bytes b, s') → length b ≤ n
    fits [] s' n b e = let same : b ≡ [] = cc in rw same (omega arith)
    fits (p ∷ s) s' n b e = let same : b ≡ take n p = cc in rw same (length-take_le n p)

abbrev total : List Bytes → ℕ
total [] = 0
total (b ∷ bs) = length b + total bs

pieces-Holds : Holds pieces total
pieces-Holds = record { shrinks = shrinks }
  where
    shrinks :
        (s s' : List Bytes) (n : ℕ) (b : Bytes)
        → read_piece s n ≡ (read_bytes b, s')
        → length b + total s' ≤ total s
    shrinks [] s' n b e =
        let got : b ≡ [] = cc in let left : s' ≡ [] = cc in rw (got, left) (omega arith)
    shrinks (p ∷ s) s' n b e = elim (Bool-cases (leb (length p) n)) [
      | inl fits ↦
          let out = rw fits at e in
          let got : b ≡ take n p = cc in
          let left : s' ≡ s = cc in rw (got, left) (omega (arith, length_take_drop n p))
      | inr more ↦
          let out = rw more at e in
          let got : b ≡ take n p = cc in
          let left : s' ≡ drop n p ∷ s = cc in rw (got, left) (omega (arith, length_take_drop n p))
    ]
      where
        length_take_drop : (n : ℕ) (b : Bytes) → length (take n b) + length (drop n b) ≡ length b
        length_take_drop zero b = omega arith
        length_take_drop (suc n) [] = omega arith
        length_take_drop (suc n) (x ∷ b) = omega (arith, length_take_drop n b)

connect_safe_example :
    connect reference pieces 100 (codes "OK MPD 0.2" ∷ codes "3.3\n" ∷ []) ≢ panicked
connect_safe_example =
    connect_safe reference pieces total (codes "OK MPD 0.2" ∷ codes "3.3\n" ∷ []) 100
      pieces-AsyncReadLaws pieces-Holds (omega arith)

-- A source that gives one byte again and again.
abbrev read_byte : ℕ → ℕ → ReadOutcome × ℕ
read_byte x zero = (read_bytes [], x)
read_byte x (suc n) = (read_bytes (x ∷ []), x)

abbrev endless : AsyncRead ℕ
endless = record { read = read_byte }

endless-AsyncReadLaws : AsyncReadLaws endless
endless-AsyncReadLaws = record { read_fits = fits }
  where
    fits : (x x' n : ℕ) (b : Bytes) → read_byte x n ≡ (read_bytes b, x') → length b ≤ n
    fits x x' zero b e = let same : b ≡ [] = cc in rw same (omega arith)
    fits x x' (suc n) b e = let same : b ≡ x ∷ [] = cc in rw same (omega arith)

endless-Lively : Lively endless
endless-Lively = record { never_empty = gives }
  where
    gives : (x x' n : ℕ) → 1 ≤ n → read_byte x n ≢ (read_bytes [], x')
    gives x x' zero h e = absurd (omega arith)
    gives x x' (suc n) h e = cc

connect_total_example : connect reference endless (suc greeting_length) b'O' ≢ out_of_fuel
connect_total_example = connect_total reference endless b'O' endless-AsyncReadLaws endless-Lively

abbrev greeting_reader : Bytes → Reader
greeting_reader b = record { buffered = []; fills = bytes b ∷ [] }

greeting-Greets : Greets (codes "OK MPD 0.23\n") [] (codes "0.23")
unfolding from_utf8
greeting-Greets = (codes "0.23", refl, cc, ((refl, (refl, (refl, (refl, tt)))), refl))

connect_whole_example :
    (connect reference pieces 1 (codes "OK MPD 0.23\n" ∷ [])
      ≡ connected [] (new reference (codes "0.23")))
    × ((Sync.connect reference.nom (greeting_reader (codes "OK MPD 0.23\n"))).0
        ≡ Sync.connected (codes "0.23"))
    × (stream (Sync.connect reference.nom (greeting_reader (codes "OK MPD 0.23\n"))).1 ≡ [])
connect_whole_example =
    connect_whole reference pieces (codes "OK MPD 0.23\n" ∷ []) []
      (greeting_reader (codes "OK MPD 0.23\n")) (codes "OK MPD 0.23\n") [] (codes "0.23") 0
      nom-NomLaws (Healthy-bytes _ _, tt) greeting-Greets (omega arith) refl refl

connect_cut_example :
    (connect reference pieces 2 (codes "OK M" ∷ codes "PD 0.23\n" ∷ []) ≡ refused invalid_message)
    × ((Sync.connect reference.nom (greeting_reader (codes "OK MPD 0.23\n"))).0
        ≡ Sync.connected (codes "0.23"))
connect_cut_example =
    connect_cut reference pieces (codes "OK M" ∷ codes "PD 0.23\n" ∷ []) (codes "PD 0.23\n" ∷ []) []
      (greeting_reader (codes "OK MPD 0.23\n")) (codes "OK M") b'P' (codes "D 0.23\n")
      (codes "0.23") 0 nom-NomLaws (Healthy-bytes _ _, tt) greeting-Greets (omega arith)
      (omega arith) refl refl refl

connect_at_eof_example :
    (connect reference pieces 100 (codes "OK MPD 0.2" ∷ []) ≡ out_of_fuel)
    × ((Sync.connect reference.nom (greeting_reader (codes "OK MPD 0.2"))).0
        ≡ Sync.refused invalid_message)
connect_at_eof_example =
    connect_at_eof reference pieces (codes "OK MPD 0.2" ∷ []) []
      (greeting_reader (codes "OK MPD 0.2")) (codes "OK MPD 0.2") b'3' (codes "\n") (codes "0.23")
      100 nom-NomLaws (Healthy-bytes _ _, tt) greeting-Greets (omega arith) refl refl refl

long_version-Greets :
    Greets
      (codes "OK MPD 0.23.5-a-very-long-version-name\n")
      []
      (codes "0.23.5-a-very-long-version-name")
unfolding from_utf8
long_version-Greets = (codes "0.23.5-a-very-long-version-name", refl, cc, (ground arith, refl))

connect_long_example :
    (connect reference pieces 2 (codes "OK MPD 0.23.5-a-very-long-version-name\n" ∷ []) ≡ panicked)
    × ((Sync.connect reference.nom
          (greeting_reader (codes "OK MPD 0.23.5-a-very-long-version-name\n"))).0
        ≡ Sync.connected (codes "0.23.5-a-very-long-version-name"))
connect_long_example =
    connect_long reference pieces (codes "OK MPD 0.23.5-a-very-long-version-name\n" ∷ [])
      (codes "n-name\n" ∷ []) []
      (greeting_reader (codes "OK MPD 0.23.5-a-very-long-version-name\n"))
      (codes "OK MPD 0.23.5-a-very-long-versio") b'n' (codes "-name\n")
      (codes "0.23.5-a-very-long-version-name") b'n' (codes "-name\n") 0 nom-NomLaws
      pieces-AsyncReadLaws (Healthy-bytes _ _, tt) long_version-Greets refl refl refl refl
