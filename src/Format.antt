-- ===== src/Format.antt =====
-- The `Display` and `Debug` implementations of src/lib.rs, src/command.rs and src/response/frame.rs, and the
-- conversions of errors. The formatter of `std::fmt` is a parameter.
use mpd_protocol.Prelude.{
  ℕ, ◌≡◌, ap, Bool, true, false, Option, none, some, List, [], ◌∷◌, ◌++◌, map, length, Bytes, codes,
}
use mpd_protocol.Std.Utf8.{Str}
use mpd_protocol.Errors.{IoError, MpdProtocolError, io, invalid_message}
use mpd_protocol.Command.{
  Command, CommandError, empty, invalid_character, unncessary_whitespace, command_list,
}
use mpd_protocol.Command.Render.{CommandList}
use mpd_protocol.Frame.{Frame, FieldsContainer, collect}

-- What `std::fmt` gives. The flag says whether the formatter is alternate, as in `{:#?}`.
pub record Formatter : Type 0 where
  pub display_usize : ℕ → Str
  pub debug_char : ℕ → Str
  pub debug_str : Bool → Str → Str
  pub debug_bytes : Bool → Bytes → Str
  pub debug_option : Bool → Option Str → Str
  pub debug_list : Bool → List Str → Str
  pub debug_map : Bool → List (Str × Str) → Str
  pub debug_struct : Bool → Str → List (Str × Str) → Str

-- `Display for MpdProtocolError`
pub display_error : MpdProtocolError → Str
display_error (io e) = codes "IO error"
display_error invalid_message = codes "invalid message"

-- `From<io::Error> for MpdProtocolError`
pub from_io_error : IoError → MpdProtocolError
from_io_error e = io e

-- `Error::source`
pub error_source : MpdProtocolError → Option IoError
error_source (io e) = some e
error_source invalid_message = none

abbrev mapped_option : {A B : Type 0} → (A → B) → Option A → Option B
mapped_option f none = none
mapped_option f (some a) = some (f a)

module _ (f : Formatter) where
  -- `Display for CommandError`
  pub display_command_error : CommandError → Str
  display_command_error empty = codes "empty command"
  display_command_error (invalid_character i c) =
      codes "invalid character " ++ (f.debug_char c ++ (codes " at position " ++ f.display_usize i))
  display_command_error unncessary_whitespace = codes "leading or trailing whitespace"
  display_command_error command_list = codes "attempted to open or close a command list"

  -- `Debug for Command`: the texts that `write!` formats are not alternate, the list is as the formatter is.
  pub debug_command : Bool → Command → Str
  debug_command alternate command = elim command.args [
    | [] ↦ codes "Command(" ++ (f.debug_str false command.base ++ codes ")")
    | arg ∷ args ↦
        codes "Command("
        ++ (f.debug_str false command.base
            ++ (codes ", "
                ++ (f.debug_list alternate (map (f.debug_str alternate) (arg ∷ args))
                    ++ codes ")")))
  ]

  -- `Debug for CommandList`
  pub debug_command_list : Bool → CommandList → Str
  unfolding debug_command
  debug_command_list alternate list =
      f.debug_list alternate (map (debug_command alternate) (list.head ∷ list.tail))

  -- `Debug for FieldsContainer`: the fields that `Fields` yields.
  pub debug_fields : Bool → FieldsContainer → Str
  debug_fields alternate fields =
      f.debug_map alternate
        (map (λ (k, v). (f.debug_str alternate k, f.debug_str alternate v)) (collect fields))

  -- The text that stands for binary data in the compact form.
  byte_count : Bytes → Str
  byte_count b = codes "<" ++ (f.display_usize (length b) ++ codes " bytes>")

  pub debug_binary : Bool → Option Bytes → Str
  unfolding byte_count
  debug_binary true binary = f.debug_option true (mapped_option (f.debug_bytes true) binary)
  debug_binary false binary =
      f.debug_option false (mapped_option (λ b. f.debug_str false (byte_count b)) binary)

  -- `Debug for Frame`
  pub debug_frame : Bool → Frame → Str
  unfolding debug_fields debug_binary
  debug_frame alternate frame = f.debug_struct alternate (codes "Frame") (
      (codes "fields", debug_fields alternate frame.fields)
      ∷ (codes "binary", debug_binary alternate frame.binary)
      ∷ [])

  -- The compact form shows of binary data only how long it is.
  debug_frame-byte_count :
      (frame : Frame) (a b : Bytes)
      → length a ≡ length b
      → debug_frame false (record frame { binary = some a })
        ≡ debug_frame false (record frame { binary = some b })
  unfolding debug_frame debug_binary byte_count
  debug_frame-byte_count frame a b same =
      ap
        (λ n. f.debug_struct false (codes "Frame") (
          (codes "fields", debug_fields false frame.fields)
          ∷ (
            codes "binary",
            f.debug_option false
                (some (f.debug_str false (codes "<" ++ (f.display_usize n ++ codes " bytes>")))),
          )
          ∷ []))
        same
