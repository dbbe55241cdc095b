-- ===== src/Std/Utf8.antt =====
-- `str`, `str::as_bytes` and `str::from_utf8`. A text is the list of its characters (Unicode
-- scalar values), as `str::chars` yields them; its bytes are their UTF-8 encoding.
use mpd_protocol.Prelude.{
  ℕ, zero, suc, ◌+◌, ◌-◌, ◌*◌, ◌/◌, ◌%◌, ◌≤◌, ◌<◌, ◌≡◌, ◌≢◌, ◌⊎◌, inl, refl, ◌&&◌, Option, none,
  some, List, [], ◌∷◌, ◌++◌, append_assoc, arith, ltb, leb, ◌==◌, if◌then◌else◌, length,
  length-append, All, All-append, Bytes,
}

abbrev pub Str : Type 0
Str = List ℕ

-- What a Rust `char` can hold.
abbrev pub IsScalar : ℕ → Type 0
IsScalar c = (c < 0xD800) ⊎ ((0xE000 ≤ c) × (c < 0x110000))

-- `char::encode_utf8`
unfoldable pub encode_char : ℕ → Bytes
encode_char c =
    if ltb c 0x80
    then c ∷ []
    else if ltb c 0x800
    then (0xC0 + c / 64) ∷ (0x80 + c % 64) ∷ []
    else if ltb c 0x10000
    then (0xE0 + c / 4096) ∷ (0x80 + c / 64 % 64) ∷ (0x80 + c % 64) ∷ []
    else (0xF0 + c / 262144) ∷ (0x80 + c / 4096 % 64) ∷ (0x80 + c / 64 % 64) ∷ (0x80 + c % 64) ∷ []

-- `str::as_bytes`
unfoldable pub as_bytes : Str → Bytes
as_bytes [] = []
as_bytes (c ∷ s) = encode_char c ++ as_bytes s

-- `str::len` counts bytes.
abbrev pub len_utf8 : Str → ℕ
len_utf8 s = length (as_bytes s)

-- Where the decoder stands: at a character's start, or with `n + 1` continuation bytes to come,
-- the next one within `lo` and `hi`, and the bits read so far.
pub data Decoder : Type 0 where
  start : Decoder
  more : (n bits lo hi : ℕ) → Decoder

-- The first byte of a character (the ranges of the Unicode standard, table 3-7).
lead : ℕ → Option (Decoder × Str)
lead b =
    if ltb b 0x80
    then some (start, b ∷ [])
    else if ltb b 0xC2
    then none
    else if ltb b 0xE0
    then some (more 0 (b - 0xC0) 0x80 0xBF, [])
    else if b == 0xE0
    then some (more 1 0 0xA0 0xBF, [])
    else if b == 0xED
    then some (more 1 0xD 0x80 0x9F, [])
    else if ltb b 0xF0
    then some (more 1 (b - 0xE0) 0x80 0xBF, [])
    else if b == 0xF0
    then some (more 2 0 0x90 0xBF, [])
    else if ltb b 0xF4
    then some (more 2 (b - 0xF0) 0x80 0xBF, [])
    else if b == 0xF4
    then some (more 2 4 0x80 0x8F, [])
    else none

-- A continuation byte that is in range.
continue_with : ℕ → ℕ → Decoder × Str
continue_with zero bits = (start, bits ∷ [])
continue_with (suc n) bits = (more n bits 0x80 0xBF, [])

decode_byte : Decoder → ℕ → Option (Decoder × Str)
unfolding lead continue_with
decode_byte start b = lead b
decode_byte (more n bits lo hi) b =
    if leb lo b && leb b hi then some (continue_with n (bits * 64 + (b - 0x80))) else none

abbrev prepend : Str → Option Str → Option Str
prepend out none = none
prepend out (some s) = some (out ++ s)

decode : Decoder → Bytes → Option Str
unfolding decode_byte
decode start [] = some []
decode (more _ _ _ _) [] = none
decode d (b ∷ bs) = elim (decode_byte d b) [
  | none ↦ none
  | some (d', out) ↦ prepend out (decode d' bs)
]

-- `str::from_utf8`
unfoldable pub from_utf8 : Bytes → Option Str
unfolding decode
from_utf8 = decode start

-- One encoded character is decoded to itself.
decode-encode_char :
    (c : ℕ) (rest : Bytes)
    → IsScalar c
    → decode start (encode_char c ++ rest) ≡ prepend (c ∷ []) (decode start rest)
unfolding decode encode_char
decode-encode_char c rest h = ground arith

-- Decoding the bytes of a text gives the text back.
pub from_utf8-as_bytes : (s : Str) → All IsScalar s → from_utf8 (as_bytes s) ≡ some s
unfolding from_utf8 as_bytes
from_utf8-as_bytes [] h = unfold decode in refl
from_utf8-as_bytes (c ∷ s) (hc, hs) =
    rw (decode-encode_char c (as_bytes s) hc) (unfold from_utf8 in rw (from_utf8-as_bytes s hs))

-- ASCII text is its own encoding.
pub as_bytes_ascii : (s : Str) → All (λ c. c < 0x80) s → as_bytes s ≡ s
unfolding as_bytes encode_char
as_bytes_ascii [] h = refl
as_bytes_ascii (c ∷ s) (hc, hs) = ground (arith, as_bytes_ascii s hs)

pub IsScalar-ascii : (s : Str) → All (λ c. c < 0x80) s → All IsScalar s
IsScalar-ascii [] h = tt
IsScalar-ascii (c ∷ s) (hc, hs) = (inl (omega arith), IsScalar-ascii s hs)

pub from_utf8_ascii : (s : Str) → All (λ c. c < 0x80) s → from_utf8 s ≡ some s
from_utf8_ascii s h = rw (as_bytes_ascii s h) at (from_utf8-as_bytes s (IsScalar-ascii s h))

pub as_bytes-append : (s t : Str) → as_bytes (s ++ t) ≡ as_bytes s ++ as_bytes t
unfolding as_bytes
as_bytes-append [] t = refl
as_bytes-append (c ∷ s) t = simp (as_bytes-append s t, append_assoc)

-- An ASCII byte occurs in the encoding only where the text has that character.
encode_char-Lacks : (b c : ℕ) → b < 0x80 → c ≢ b → All (λ x. x ≢ b) (encode_char c)
unfolding encode_char
encode_char-Lacks b c hb h = ground arith

pub as_bytes-Lacks :
    (b : ℕ) (s : Str) → b < 0x80 → All (λ x. x ≢ b) s → All (λ x. x ≢ b) (as_bytes s)
unfolding as_bytes
as_bytes-Lacks b [] hb h = tt
as_bytes-Lacks b (c ∷ s) hb (hc, hs) =
    All-append _ (encode_char c) (as_bytes s) (encode_char-Lacks b c hb hc)
      (as_bytes-Lacks b s hb hs)

pub len_utf8-cons : (c : ℕ) (s : Str) → len_utf8 (c ∷ s) ≡ length (encode_char c) + len_utf8 s
unfolding as_bytes
len_utf8-cons c s = length-append {0} (encode_char c) (as_bytes s)
