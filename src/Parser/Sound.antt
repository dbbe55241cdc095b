-- ===== src/Parser/Sound.antt =====
-- Whatever the parser accepts is a message of the wire format, and says what the message says.
use mpd_protocol.Prelude.{
  ℕ, ◌<◌, ◌≡◌, inl, inr, refl, Option, [], ◌∷◌, ◌++◌, arith, All, AllTest, Bytes, codes,
}
use mpd_protocol.Std.Utf8.{Str, from_utf8, from_utf8_ascii}
use mpd_protocol.Std.Number.{parse_u64}
use mpd_protocol.Nom.Laws.{done, Parser, and_then, optional, accept}
use mpd_protocol.Nom.Reference.{nom, tag, take, take_while, take_while1, char}
use mpd_protocol.Parser.{
  RawError, not_newline, number, error_code_and_index, error_current_command, parse_error,
  into_owned_error, key_value_field, binary_prefix, parse_binary_field,
}
use mpd_protocol.Parser.Wire.{
  ack, pair, blob, IsNumeral, command_byte, key_byte, IsCommandName, IsLine, ack_bytes, Wire,
  ack_line, binary_section, field_line,
}
use mpd_protocol.Parser.Inversion.{
  and_then-eq-done, tag-eq-done, char-eq-done, take-eq-done, take_while-eq-done,
  take_while1-eq-done, number-eq-done, accepted_text-eq-done, delimited-eq-done,
  separated_pair-eq-done, tuple-eq-done, terminated-eq-done, optional-eq-done,
  unrecoverable-eq-done, done-injective,
}

error_code_and_index-eq-done :
    (i : Bytes) {r : Bytes} {c x : ℕ}
    → error_code_and_index nom i ≡ done r (c, x)
    → (code : Bytes) × (index : Bytes) × IsNumeral code c
      × IsNumeral index x
      × (i ≡ b'[' ∷ (code ++ (b'@' ∷ (index ++ b']' ∷ r))))
unfolding error_code_and_index
error_code_and_index-eq-done i h =
    let (j, k, _, _, open_, inner, close) = delimited-eq-done (char b'[') _ (char b']') i h in
    let (l, m, _, first, at, second) =
      separated_pair-eq-done (number nom parse_u64) (char b'@') (number nom parse_u64) j inner in
    let (code, e₁, is_code) = number-eq-done j first in
    let (index, e₂, is_index) = number-eq-done m second in
    (
      code,
      index,
      is_code,
      is_index,
      rw (char-eq-done b'[' i open_, e₁, char-eq-done b'@' l at, e₂, char-eq-done b']' k close),
    )

pub command_ascii : (b : Bytes) → AllTest command_byte b → All (λ c. c < 0x80) b
command_ascii [] h = tt
command_ascii (c ∷ b) (hc, hb) = (ground arith, command_ascii b hb)

pub key_ascii : (b : Bytes) → AllTest key_byte b → All (λ c. c < 0x80) b
key_ascii [] h = tt
key_ascii (c ∷ b) (hc, hb) = (ground arith, key_ascii b hb)

command_name :
    (i : Bytes) {r : Bytes} {o : Option Str}
    → optional i (and_then (take_while1 command_byte i) (λ a. accept (from_utf8 a))) ≡ done r o
    → (name : Bytes) × IsCommandName name o × (i ≡ name ++ r)
command_name i h = elim (optional-eq-done i _ h) [
  | inl (absent, same) ↦ ([], rw absent refl, same)
  | inr (s, present, e) ↦
      let (name, scanned, text) = accepted_text-eq-done (take_while1 command_byte i) e in
      let (split, ne, all) = take_while1-eq-done command_byte i scanned in
      let ascii = from_utf8_ascii name (command_ascii name all) in
      (name, rw present (ne, all, cc), split)
]

error_current_command-eq-done :
    (i : Bytes) {r : Bytes} {o : Option Str}
    → error_current_command nom i ≡ done r o
    → (name : Bytes) × IsCommandName name o × (i ≡ b'{' ∷ (name ++ b'}' ∷ r))
unfolding error_current_command
error_current_command-eq-done i h =
    let (j, k, _, _, open_, inner, close) = delimited-eq-done (char b'{') _ (char b'}') i h in
    let (name, is_name, e) = command_name j inner in
    (name, is_name, rw (char-eq-done b'{' i open_, e, char-eq-done b'}' k close))

IsLine-eq-done :
    (i : Bytes) {r : Bytes} {s : Str}
    → and_then (take_while not_newline i) (λ a. accept (from_utf8 a)) ≡ done r s
    → (line : Bytes) × IsLine line s × (i ≡ line ++ r)
IsLine-eq-done i h =
    let (line, scanned, text) = accepted_text-eq-done (take_while not_newline i) h in
    let (split, all) = take_while-eq-done not_newline i scanned in (line, (all, text), split)

abbrev numbers_part : Parser (ℕ × ℕ)
numbers_part = nom.terminated (error_code_and_index nom) (char b' ')

abbrev name_part : Parser (Option Str)
name_part = nom.terminated (error_current_command nom) (char b' ')

abbrev line_part : Parser Str
line_part = nom.map_res (take_while not_newline) from_utf8

abbrev error_body : Parser ((ℕ × ℕ) × Option Str × Str)
error_body = nom.tuple numbers_part name_part line_part

error_body-eq-done :
    (i : Bytes) {r : Bytes} {c x : ℕ} {o : Option Str} {s : Str}
    → error_body i ≡ done r ((c, x), o, s)
    → (code : Bytes) × (index : Bytes) × (name : Bytes) × (line : Bytes) × IsNumeral code c
      × IsNumeral index x
      × IsCommandName name o
      × IsLine line s
      × (i
          ≡ b'['
            ∷ (code ++ (b'@' ∷ (index ++ (codes "] {" ++ (name ++ (codes "} " ++ (line ++ r))))))))
error_body-eq-done i h =
    let (l, m, first, second, third) = tuple-eq-done numbers_part name_part line_part i h in
    let (l', _, numbers, space) =
      terminated-eq-done (error_code_and_index nom) (char b' ') i first in
    let (m', _, named, space') =
      terminated-eq-done (error_current_command nom) (char b' ') l second in
    let (code, index, is_code, is_index, e) = error_code_and_index-eq-done i numbers in
    let (name, is_name, e') = error_current_command-eq-done l named in
    let (line, is_line, e'') = IsLine-eq-done m third in
    (
      code,
      index,
      name,
      line,
      is_code,
      is_index,
      is_name,
      is_line,
      rw (e, char-eq-done b' ' l' space, e', char-eq-done b' ' m' space', e''),
    )

ack_assembled :
    (code index name line : Bytes) {i j k s r : Bytes}
    → i ≡ codes "ACK " ++ j
    → j
      ≡ b'[' ∷ (code ++ (b'@' ∷ (index ++ (codes "] {" ++ (name ++ (codes "} " ++ (line ++ k)))))))
    → k ≡ b'\n' ∷ s
    → s ≡ r
    → i ≡ ack_bytes code index name line r
ack_assembled code index name line start body end same = rw (start, body, end, same)

pub parse_error-eq-done :
    (i : Bytes) {r : Bytes} {e : RawError}
    → parse_error nom i ≡ done r e
    → Wire i r (ack (into_owned_error e))
unfolding parse_error into_owned_error
parse_error-eq-done i {r} h =
    let (s, ((c, x), o, m), whole, made) =
      and_then-eq-done (nom.delimited (tag (codes "ACK ")) error_body (char b'\n') i) _ h in
    let (j, k, _, _, start, body, end) =
      delimited-eq-done (tag (codes "ACK ")) error_body (char b'\n') i whole in
    let (code, index, name, line, is_code, is_index, is_name, is_line, e) =
      error_body-eq-done j body in
    let (same, out) = done-injective made in
    rw (← out) (
      ack_line _ code index name line is_code is_index is_name is_line (
        ack_assembled code index name line (tag-eq-done (codes "ACK ") i start) e
          (char-eq-done b'\n' k end) same))

abbrev key_part : Parser Str
key_part = nom.map_res (take_while1 key_byte) from_utf8

abbrev value_part : Parser Str
value_part = nom.map_res (nom.terminated (take_while not_newline) (char b'\n')) from_utf8

pub key_value_field-eq-done :
    (i : Bytes) {r : Bytes} {k v : Str}
    → key_value_field nom i ≡ done r (k, v)
    → Wire i r (pair k v)
unfolding key_value_field
key_value_field-eq-done i {k = name} {v} h =
    let (j, k, _, first, colon, second) =
      separated_pair-eq-done key_part (tag (codes ": ")) value_part i h in
    let (key, scanned, text) = accepted_text-eq-done (take_while1 key_byte i) first in
    let (split, ne, all) = take_while1-eq-done key_byte i scanned in
    let ascii = from_utf8_ascii key (key_ascii key all) in
    let (value, line, text') =
      accepted_text-eq-done (nom.terminated (take_while not_newline) (char b'\n') k) second in
    let (l, _, scanned', end) = terminated-eq-done (take_while not_newline) (char b'\n') k line in
    let (split', all') = take_while-eq-done not_newline k scanned' in
    rw (let q : name ≡ key = cc in q) (
      field_line key value v ne all (all', text')
        (rw (split, tag-eq-done (codes ": ") j colon, split', char-eq-done b'\n' l end)))

binary_prefix-eq-done :
    (i : Bytes) {r : Bytes} {len : ℕ}
    → binary_prefix nom i ≡ done r len
    → (digits : Bytes) × IsNumeral digits len × (i ≡ codes "binary: " ++ (digits ++ b'\n' ∷ r))
unfolding binary_prefix
binary_prefix-eq-done i h =
    let (j, k, _, _, prefix, inner, end) =
      delimited-eq-done (tag (codes "binary: ")) (number nom parse_u64) (char b'\n') i h in
    let (digits, e, is_numeral) = number-eq-done j inner in
    (digits, is_numeral, rw (tag-eq-done (codes "binary: ") i prefix, e, char-eq-done b'\n' k end))

pub parse_binary_field-eq-done :
    (i : Bytes) {r content : Bytes}
    → parse_binary_field nom i ≡ done r content
    → Wire i r (blob content)
unfolding parse_binary_field
parse_binary_field-eq-done i h =
    let (j, len, header, body) = and_then-eq-done (binary_prefix nom i) _ h in
    let (digits, is_numeral, e) = binary_prefix-eq-done i header in
    let (k, _, taken, end) =
      terminated-eq-done (take len) (char b'\n') j (unrecoverable-eq-done _ body) in
    let (e', same) = take-eq-done len j taken in
    binary_section digits _ (rw same is_numeral) (rw (e, e', char-eq-done b'\n' k end))
