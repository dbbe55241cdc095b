-- ===== src/Command/Escape/Capacity.antt =====
-- The capacity that `escape_argument_internal` reserves for its output (src/command.rs).
use mpd_protocol.Prelude.{
  ◌+◌, ◌≡◌, refl, ap, ◌∙◌, Bool, true, false, [], ◌∷◌, ◌++◌, arith, Bool-cases, inl, inr, length,
  length-append,
}
use mpd_protocol.Std.Utf8.{Str, as_bytes, encode_char, len_utf8, len_utf8-cons, as_bytes-append}
use mpd_protocol.Command.{should_escape, escape_count, push_escaped, escaped, escaped_capacity}
use mpd_protocol.Command.Escape.{escaped_chars, push_escaped-append}

len_utf8-append : (s t : Str) → len_utf8 (s ++ t) ≡ len_utf8 s + len_utf8 t
len_utf8-append s t = ap length (as_bytes-append s t) ∙ length-append {0} (as_bytes s) (as_bytes t)

len_utf8_quote : len_utf8 (b'"' ∷ []) ≡ 1
unfolding as_bytes encode_char
len_utf8_quote = refl

len_utf8_backslash : length (encode_char b'\\') ≡ 1
unfolding encode_char
len_utf8_backslash = refl

len_utf8-escaped_chars : (s : Str) → len_utf8 (escaped_chars s) ≡ len_utf8 s + escape_count s
unfolding escape_count
len_utf8-escaped_chars [] = unfold as_bytes in refl
len_utf8-escaped_chars (c ∷ s) =
    let rest = len_utf8-escaped_chars s in
    let whole = len_utf8-cons c s in
    elim (Bool-cases (should_escape c)) [
      | inl special ↦ rw special (
          omega (
            arith,
            rest,
            whole,
            len_utf8_backslash,
            len_utf8-cons b'\\' (c ∷ escaped_chars s),
            len_utf8-cons c (escaped_chars s),
          ))
      | inr plain ↦ rw plain (omega (arith, rest, whole, len_utf8-cons c (escaped_chars s)))
    ]

-- The capacity is exact: the escaped text has as many bytes as were reserved for it, with quotes and
-- without.
pub len_utf8-escaped :
    (argument : Str) (needs_quotes : Bool)
    → len_utf8 (escaped argument needs_quotes) ≡ escaped_capacity argument needs_quotes
unfolding escaped escaped_capacity
len_utf8-escaped argument false =
    ap len_utf8 (push_escaped-append argument []) ∙ omega (arith, len_utf8-escaped_chars argument)
len_utf8-escaped argument true =
    len_utf8-append (push_escaped (b'"' ∷ []) argument) (b'"' ∷ [])
    ∙ omega (
      arith,
      ap len_utf8 (push_escaped-append argument (b'"' ∷ [])),
      len_utf8-append (b'"' ∷ []) (escaped_chars argument),
      len_utf8_quote,
      len_utf8-escaped_chars argument,
    )
