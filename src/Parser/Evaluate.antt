-- ===== src/Parser/Evaluate.antt =====
-- What the parsers of src/parser.rs return on input of the right form.
use mpd_protocol.Prelude.{
  ℕ, ◌≡◌, ◌≢◌, refl, ◌∙◌, Bool, false, Option, none, some, [], ◌∷◌, ◌++◌, arith, length, AllTest,
  Bytes,
}
use mpd_protocol.Std.Utf8.{Str, from_utf8_ascii}
use mpd_protocol.Std.Number.{is_digit, parse_u64, parse_u64-value}
use mpd_protocol.Nom.Laws.{done}
use mpd_protocol.Nom.Reference.{nom, nom-NomLaws, tag, take_while1, char}
use mpd_protocol.Parser.{
  number, not_newline, RawError, error_code_and_index, error_current_command, parse_error,
  key_value_field, binary_prefix, parse_binary_field,
}
use mpd_protocol.Parser.Wire.{
  IsNumeral, IsCommandName, IsLine, command_byte, key_byte, ack_bytes, pair_bytes, blob_bytes,
}
use mpd_protocol.Parser.Inversion.{digit_ascii}
use mpd_protocol.Parser.Sound.{command_ascii, key_ascii}

scan :
    (f : ℕ → Bool) (t : Bytes) (c : ℕ) (r : Bytes)
    → t ≢ []
    → AllTest f t
    → f c ≡ false
    → take_while1 f (t ++ c ∷ r) ≡ done (c ∷ r) t
scan f [] c r ne all stop = absurd (ne refl)
scan f (b ∷ t) c r ne all stop = nom-NomLaws.leaf.take_while1_stop f b t c r all stop

numeral-parse_u64 : (ds : Bytes) (v : ℕ) → IsNumeral ds v → parse_u64 ds ≡ some v
numeral-parse_u64 [] v n = absurd (n.some_digit refl)
numeral-parse_u64 (c ∷ ds) v n =
    let fits = n.fits in let spells = n.spells in parse_u64-value c ds n.all_digits ∙ ground arith

pub number-numeral :
    (ds : Bytes) (v c : ℕ) (r : Bytes)
    → IsNumeral ds v
    → is_digit c ≡ false
    → number nom parse_u64 (ds ++ c ∷ r) ≡ done (c ∷ r) v
unfolding number
number-numeral ds v c r n stop =
    rw (scan is_digit ds c r n.some_digit n.all_digits stop)
      (rw (from_utf8_ascii ds (digit_ascii ds n.all_digits)) (rw (numeral-parse_u64 ds v n) refl))

numbers-done :
    (code index : Bytes) (c x : ℕ) (r : Bytes)
    → IsNumeral code c
    → IsNumeral index x
    → error_code_and_index nom (b'[' ∷ (code ++ b'@' ∷ (index ++ b']' ∷ r))) ≡ done r (c, x)
unfolding error_code_and_index char
numbers-done code index c x r is_code is_index =
    rw (number-numeral code c b'@' (index ++ b']' ∷ r) is_code refl)
      (rw (number-numeral index x b']' r is_index refl) refl)

name-done :
    (name : Bytes) (o : Option Str) (r : Bytes)
    → IsCommandName name o
    → error_current_command nom (b'{' ∷ (name ++ b'}' ∷ r)) ≡ done r o
unfolding error_current_command char take_while1
name-done name none r h = rw h refl
name-done name (some s) r (ne, all, same) =
    rw (scan command_byte name b'}' r ne all refl)
      (rw (from_utf8_ascii name (command_ascii name all)) (rw same refl))

-- An error line.
pub parse_error-done :
    (code index name line : Bytes) (e : RawError) (r : Bytes)
    → IsNumeral code e.code
    → IsNumeral index e.command_index
    → IsCommandName name e.current_command
    → IsLine line e.message
    → parse_error nom (ack_bytes code index name line r) ≡ done r e
unfolding parse_error tag char
parse_error-done code index name line e r is_code is_index is_name (all, valid) =
    rw (numbers-done code index e.code e.command_index _ is_code is_index) (
      rw (name-done name e.current_command _ is_name)
        (rw (nom-NomLaws.leaf.take_while_stop not_newline line b'\n' r all refl) (rw valid refl)))

-- A binary section.
pub parse_binary_field-done :
    (digits content r : Bytes)
    → IsNumeral digits (length content)
    → parse_binary_field nom (blob_bytes digits content r) ≡ done r content
unfolding parse_binary_field binary_prefix tag char
parse_binary_field-done digits content r n =
    rw (number-numeral digits (length content) b'\n' (content ++ b'\n' ∷ r) n refl)
      (rw (nom-NomLaws.leaf.take_enough content (b'\n' ∷ r)) refl)

-- A line with a key and a value.
pub key_value_field-done :
    (key value : Bytes) (v : Str) (r : Bytes)
    → key ≢ []
    → AllTest key_byte key
    → IsLine value v
    → key_value_field nom (pair_bytes key value r) ≡ done r (key, v)
unfolding key_value_field tag char
key_value_field-done key value v r ne all (line, valid) =
    rw (scan key_byte key b':' (b' ' ∷ (value ++ b'\n' ∷ r)) ne all refl) (
      rw (from_utf8_ascii key (key_ascii key all))
        (rw (nom-NomLaws.leaf.take_while_stop not_newline value b'\n' r line refl) (rw valid refl)))
