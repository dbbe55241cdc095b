-- ===== src/Parser/Wire.antt =====
-- The wire format of MPD's responses, described without the parser: which bytes are a message, and
-- what the message says. The parser is compared with this in the modules beside it.
use mpd_protocol.Prelude.{
  ℕ, ◌≤◌, ◌≡◌, ◌≢◌, Bool, ◌&&◌, ◌||◌, Option, none, some, [], ◌∷◌, ◌++◌, leb, ◌==◌, length, AllTest,
  Bytes, codes,
}
use mpd_protocol.Std.Utf8.{Str, from_utf8}
use mpd_protocol.Std.Number.{is_digit, value_from, u64_max}
use mpd_protocol.Parser.{
  Error, ParsedComponent, end_of_frame, end_of_response, error_response, field, binary_field,
  not_newline,
}

-- What a message says: a field's key is a text here, and a binary section is its bytes.
pub data Message : Type 0 where
  frame_end : Message
  response_end : Message
  ack : Error → Message
  pair : Str → Str → Message
  blob : Bytes → Message

-- Decimal digits, at least one, that spell a number of 64 bits.
pub record IsNumeral (digits : Bytes) (value : ℕ) : Type 0 where
  pub some_digit : digits ≢ []
  pub all_digits : AllTest is_digit digits
  pub spells : value ≡ value_from 0 digits
  pub fits : value ≤ u64_max

abbrev pub letter : ℕ → Bool
letter c = leb b'A' c && leb c b'Z' || leb b'a' c && leb c b'z'

abbrev pub command_byte : ℕ → Bool
command_byte c = letter c || c == b'_'

abbrev pub key_byte : ℕ → Bool
key_byte c = letter c || c == b'_' || c == b'-'

-- The name between braces in an error, absent if there is nothing between them.
abbrev pub IsCommandName : Bytes → Option Str → Type 0
IsCommandName b none = b ≡ []
IsCommandName b (some s) = (b ≢ []) × AllTest command_byte b × (s ≡ b)

-- A line of text, without its end.
abbrev pub IsLine : Bytes → Str → Type 0
IsLine b s = AllTest not_newline b × (from_utf8 b ≡ some s)

abbrev pub ack_bytes : Bytes → Bytes → Bytes → Bytes → Bytes → Bytes
ack_bytes code index command message rest =
    codes "ACK ["
    ++ (code
        ++ (b'@'
            ∷ (index ++ (codes "] {" ++ (command ++ (codes "} " ++ (message ++ b'\n' ∷ rest)))))))

abbrev pub pair_bytes : Bytes → Bytes → Bytes → Bytes
pair_bytes key value rest = key ++ (codes ": " ++ (value ++ b'\n' ∷ rest))

abbrev pub blob_bytes : Bytes → Bytes → Bytes → Bytes
blob_bytes digits content rest = codes "binary: " ++ (digits ++ b'\n' ∷ (content ++ b'\n' ∷ rest))

-- `Wire i r m`: the bytes `i` are the message `m`, and then `r`.
pub data Wire (i r : Bytes) : Message → Type 0 where
  ok_line : i ≡ codes "OK\n" ++ r → Wire i r response_end
  list_ok_line : i ≡ codes "list_OK\n" ++ r → Wire i r frame_end
  ack_line :
      (e : Error) (code index command message : Bytes)
      → IsNumeral code e.code
      → IsNumeral index e.command_index
      → IsCommandName command e.current_command
      → IsLine message e.message
      → i ≡ ack_bytes code index command message r
      → Wire i r (ack e)
  binary_section :
      (digits content : Bytes)
      → IsNumeral digits (length content)
      → i ≡ blob_bytes digits content r
      → Wire i r (blob content)
  field_line :
      (key value : Bytes) (v : Str)
      → key ≢ []
      → AllTest key_byte key
      → IsLine value v
      → i ≡ pair_bytes key value r
      → Wire i r (pair key v)

-- A component says what a message says. Of a binary section it has only the length.
abbrev pub Says : ParsedComponent → Message → Type 0
Says end_of_frame m = m ≡ frame_end
Says end_of_response m = m ≡ response_end
Says (error_response e) m = m ≡ ack e
Says (field k v) m = m ≡ pair k.text v
Says (binary_field len) m = (content : Bytes) × (m ≡ blob content) × (length content ≡ len)
