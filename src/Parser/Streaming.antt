-- ===== src/Parser/Streaming.antt =====
-- Every parser of src/parser.rs is stable under more input.
use mpd_protocol.Prelude.{Option}
use mpd_protocol.Std.Utf8.{Str}
use mpd_protocol.Nom.Reference.{nom}
use mpd_protocol.Interner.{HashSetOps}
use mpd_protocol.Parser.{
  greeting, number, error_code_and_index, error_current_command, parse_error, key_value_field,
  parse_binary_field, component,
}
use mpd_protocol.Nom.Laws.{NomOps, NomLaws}
use mpd_protocol.Nom.Unique.{by_reference}
use mpd_protocol.Parser.Stable.{
  Stable, Stable-done, Stable-accept, Stable-optional, Stable-unrecoverable, Stable-or_else,
  Stable-and_then, Stable-tag, Stable-take, Stable-take_while, Stable-take_while1, Stable-char,
}

ruleset stable_rules = (
  Stable-done, Stable-accept, Stable-optional, Stable-unrecoverable, Stable-or_else,
  Stable-and_then, Stable-tag, Stable-take, Stable-take_while, Stable-take_while1, Stable-char,
)

pub Stable-greeting : Stable (greeting nom)
unfolding greeting
Stable-greeting = Stable-and_then (Stable-tag _) λ _.
    Stable-and_then (Stable-and_then (Stable-take_while1 _) (λ a. Stable-accept _))
      λ b. Stable-and_then (Stable-char _) λ _. Stable-done b

-- With any `nom` that does what it documents.
pub greeting-Stable : {n : NomOps} → NomLaws n → Stable (greeting n)
greeting-Stable laws = by_reference (λ k. Stable (greeting k)) laws Stable-greeting

Stable-number : {O : Type 0} (from_str : Str → Option O) → Stable (number nom from_str)
unfolding number
Stable-number from_str =
    Stable-and_then (Stable-and_then (Stable-take_while1 _) (λ a. Stable-accept _))
      (λ a. Stable-accept _)

Stable-error_code_and_index : Stable (error_code_and_index nom)
unfolding error_code_and_index
Stable-error_code_and_index = search (stable_rules, Stable-number) depth 20

Stable-error_current_command : Stable (error_current_command nom)
unfolding error_current_command
Stable-error_current_command = search stable_rules depth 20

Stable-parse_error : Stable (parse_error nom)
unfolding parse_error
Stable-parse_error = search (stable_rules, Stable-number) depth 20

Stable-key_value_field : Stable (key_value_field nom)
unfolding key_value_field
Stable-key_value_field = search stable_rules depth 20

Stable-binary_field : Stable (parse_binary_field nom)
unfolding parse_binary_field
Stable-binary_field = search (stable_rules, Stable-number) depth 20

pub Stable-component : (h : HashSetOps) → Stable (component nom h)
unfolding component
Stable-component h = search stable_rules depth 30

-- With any `nom` that does what it documents, what the component parser recognises does not depend on
-- how the input is cut: unless it asks for more, more input changes neither the component nor the
-- error, and is found behind the rest.
pub component-Stable : {n : NomOps} (h : HashSetOps) → NomLaws n → Stable (component n h)
component-Stable h laws = by_reference (λ k. Stable (component k h)) laws (Stable-component h)
