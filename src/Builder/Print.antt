-- ===== src/Builder/Print.antt =====
-- The bytes that a server sends for a reply, as a function, and that they are on the wire what they
-- should be.
use mpd_protocol.Prelude.{
  ℕ, ◌≤◌, ◌≢◌, refl, sym, Option, none, some, List, [], ◌∷◌, ◌++◌, append_assoc, arith, All,
  AllTest, length, Bytes, codes,
}
use mpd_protocol.Std.Utf8.{Str, IsScalar, as_bytes, from_utf8-as_bytes, as_bytes-Lacks}
use mpd_protocol.Std.Number.{u64_max}
use mpd_protocol.Std.Decimal.{decimal, decimal_lem}
use mpd_protocol.Parser.{not_newline}
use mpd_protocol.Parser.Wire.{
  Message, frame_end, response_end, ack, pair, blob, IsNumeral, IsCommandName, IsLine, key_byte,
  command_byte, ack_bytes, pair_bytes, blob_bytes, Wire, ok_line, list_ok_line, ack_line,
  binary_section, field_line,
}
use mpd_protocol.Parser.Complete.{Unambiguous}
use mpd_protocol.Builder.Abstract.{Reply, OnWire, stop, more}
use mpd_protocol.Builder.Encode.{encode}

abbrev command_bytes : Option Str → Bytes
command_bytes none = []
command_bytes (some s) = s

unfoldable pub print_message : Message → Bytes
print_message frame_end = codes "list_OK\n"
print_message response_end = codes "OK\n"
print_message (pair k v) = pair_bytes k (as_bytes v) []
print_message (blob b) = blob_bytes (decimal (length b)) b []
print_message (ack e) =
    ack_bytes (decimal e.code) (decimal e.command_index) (command_bytes e.current_command)
      (as_bytes e.message) []

unfoldable pub print_messages : List Message → Bytes
unfolding print_message
print_messages [] = []
print_messages (m ∷ ms) = print_message m ++ print_messages ms

unfoldable pub print : Reply → Bytes
unfolding print_messages
print y = print_messages (encode y)

-- Characters, and no newline among them.
abbrev pub OneLine : Str → Type 0
OneLine s = All IsScalar s × All (λ c. c ≢ b'\n') s

abbrev pub NameOrNone : Option Str → Type 0
NameOrNone none = Unit {0}
NameOrNone (some s) = (s ≢ []) × AllTest command_byte s

-- What the protocol lets a server send: keys of letters, `_` and `-`, numbers of 64 bits.
abbrev pub Sendable : Message → Type 0
Sendable frame_end = Unit {0}
Sendable response_end = Unit {0}
Sendable (pair k v) = (k ≢ []) × AllTest key_byte k × (k ≢ codes "binary") × OneLine v
Sendable (blob b) = length b ≤ u64_max
Sendable (ack e) =
    (e.code ≤ u64_max)
    × (e.command_index ≤ u64_max)
    × NameOrNone e.current_command
    × OneLine e.message

decimal-IsNumeral : (n : ℕ) → n ≤ u64_max → IsNumeral (decimal n) n
decimal-IsNumeral n fits =
    let (some_digit, all, value) = decimal_lem n in
    record { some_digit = some_digit; all_digits = all; spells = sym value; fits = fits }

not_newlines : (b : Bytes) → All (λ c. c ≢ b'\n') b → AllTest not_newline b
not_newlines [] h = tt
not_newlines (c ∷ b) (hc, hb) = (ground arith, not_newlines b hb)

as_bytes-IsLine : (s : Str) → OneLine s → IsLine (as_bytes s) s
as_bytes-IsLine s (scalars, lacks) = (
  not_newlines (as_bytes s) (as_bytes-Lacks b'\n' s (omega arith) lacks),
  from_utf8-as_bytes s scalars,
)

command_bytes-IsCommandName : (o : Option Str) → NameOrNone o → IsCommandName (command_bytes o) o
command_bytes-IsCommandName none h = refl
command_bytes-IsCommandName (some s) (ne, all) = (ne, all, refl)

print_message-Wire :
    (m : Message) (r : Bytes) → Sendable m → Wire (print_message m ++ r) r m × Unambiguous m
unfolding print_message Unambiguous
print_message-Wire frame_end r h = (list_ok_line refl, tt)
print_message-Wire response_end r h = (ok_line refl, tt)
print_message-Wire (pair k v) r (ne, all, free, line) =
    (field_line k (as_bytes v) v ne all (as_bytes-IsLine v line) (simp append_assoc), free)
print_message-Wire (blob b) r h =
    (binary_section (decimal (length b)) b (decimal-IsNumeral (length b) h) (simp append_assoc), tt)
print_message-Wire (ack e) r (code, index, name, line) = (
  ack_line e (decimal e.code) (decimal e.command_index) (command_bytes e.current_command)
      (as_bytes e.message) (decimal-IsNumeral e.code code) (decimal-IsNumeral e.command_index index)
      (command_bytes-IsCommandName e.current_command name) (as_bytes-IsLine e.message line)
      (simp append_assoc),
  tt,
)

print_messages-OnWire : (ms : List Message) → All Sendable ms → OnWire [] (print_messages ms) ms
unfolding print_messages
print_messages-OnWire [] h = stop
print_messages-OnWire (m ∷ ms) (hm, hms) =
    let (wire, free) = print_message-Wire m (print_messages ms) hm in
    more (print_messages ms) m ms wire free (print_messages-OnWire ms hms)

pub print-OnWire : (y : Reply) → All Sendable (encode y) → OnWire [] (print y) (encode y)
unfolding print
print-OnWire y h = print_messages-OnWire (encode y) h
