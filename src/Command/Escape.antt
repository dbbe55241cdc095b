-- ===== src/Command/Escape.antt =====
-- Escaping and quoting of arguments: the loop of `escape_argument_internal` as a plain recursion,
-- and the two forms of its result.
pub mod Scanner
pub mod RoundTrip
pub mod Capacity
use mpd_protocol.Prelude.{
  ℕ, zero, suc, ◌+◌, ◌≡◌, refl, sym, ap, ◌∙◌, Bool, true, false, not, ◌&&◌, ◌||◌, List, [], ◌∷◌,
  ◌++◌, append_assoc, append-nil, arith, ◌==◌, if◌then◌else◌, Bool-cases, inl, inr, length,
  length-append, Bytes,
}
use mpd_protocol.Std.Utf8.{Str, encode_char, as_bytes, len_utf8, as_bytes-append, len_utf8-cons}
use mpd_protocol.Command.{
  should_escape, contains_blank, escape_count, push_escaped, escaped_capacity, escaped,
  escape_argument_internal,
}

-- The text with a backslash before each character that wants one.
abbrev pub escaped_chars : Str → Str
escaped_chars [] = []
escaped_chars (c ∷ s) = if should_escape c then b'\\' ∷ c ∷ escaped_chars s else c ∷ escaped_chars s

push_escaped-append : (s out : Str) → push_escaped out s ≡ out ++ escaped_chars s
unfolding push_escaped
push_escaped-append [] out = sym (append-nil out)
push_escaped-append (c ∷ s) out = elim (Bool-cases (should_escape c)) [
  | inl special ↦ push_escaped-append s _ ∙ rw special (simp append_assoc)
  | inr plain ↦ push_escaped-append s _ ∙ rw plain (simp append_assoc)
]

none_escaped : (s : Str) → escape_count s ≡ 0 → escaped_chars s ≡ s
unfolding escape_count
none_escaped [] e = refl
none_escaped (c ∷ s) e = elim (Bool-cases (should_escape c)) [
  | inl special ↦ absurd (let impossible : 1 + escape_count s ≡ 0 = rw special at e in omega arith)
  | inr plain ↦
      let later : 0 + escape_count s ≡ 0 = rw plain at e in
      rw plain (ap (λ t. c ∷ t) (none_escaped s (omega arith)))
]

-- What `escape_argument_internal` returns, with or without quotes.
unfoldable pub quoted_form : Str → Str
quoted_form s = b'"' ∷ (escaped_chars s ++ b'"' ∷ [])

quoted_loop : (s : Str) → escaped s true ≡ quoted_form s
unfolding escaped quoted_form
quoted_loop s = ap (λ t. t ++ b'"' ∷ []) (push_escaped-append s (b'"' ∷ []))

-- Both branches of the test for an argument that needs nothing.
quoted_branch :
    (s : Str) → (if escape_count s == 0 && false then s else escaped s true) ≡ quoted_form s
unfolding escaped quoted_form
quoted_branch s = elim (Bool-cases (escape_count s == 0)) [
  | inl zero_count ↦ rw zero_count (quoted_loop s)
  | inr some_count ↦ rw some_count (quoted_loop s)
]

bare_branch :
    (s : Str) → (if escape_count s == 0 && true then s else escaped s false) ≡ escaped_chars s
unfolding escaped
bare_branch s = elim (Bool-cases (escape_count s == 0)) [
  | inl zero_count ↦ rw zero_count (sym (none_escaped s (ground arith)))
  | inr some_count ↦ rw some_count (push_escaped-append s [])
]

pub escape-cases :
    (s : Str) (enable_quotes : Bool)
    → escape_argument_internal s enable_quotes
      ≡ (if enable_quotes && contains_blank s then quoted_form s else escaped_chars s)
unfolding escape_argument_internal quoted_form
escape-cases s enable_quotes = elim (Bool-cases (enable_quotes && contains_blank s)) [
  | inl quotes ↦ rw quotes (quoted_branch s)
  | inr bare ↦ rw bare (bare_branch s)
]
