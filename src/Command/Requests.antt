-- ===== src/Command/Requests.antt =====
-- What a server reads off the bytes that a client sends (src/command.rs renders them): lines, and lists of
-- commands between their two markers, as the protocol describes them. How the server takes a line apart into
-- words is its own code and a parameter here; `Command/Requests/Spelling` states what it documents.
pub mod Spelling
pub mod Lines
pub mod RoundTrip
use mpd_protocol.Prelude.{
  ℕ, ◌==◌, Option, none, some, List, [], ◌∷◌, ◌++◌, if◌then◌else◌, equal, Bytes, codes, ◌>>=◌,
}
use mpd_protocol.Std.Utf8.{Str, from_utf8}

-- The server's reader of a line: the words, if it takes the line.
abbrev pub Tokenizer : Type 0
Tokenizer = Str → Option (List Str)

-- A command alone, or several as a list; each is its words.
pub data Request : Type 0 where
  single : List Str → Request
  several : List (List Str) → Request

abbrev unended : Bytes → Option (List Bytes)
unended [] = some []
unended (c ∷ line) = none

-- The lines, without their newlines; the line so far comes first. A line that is not ended is no line.
pub split_lines : Bytes → Bytes → Option (List Bytes)
split_lines line [] = unended line
split_lines line (c ∷ s) =
    let ended = (do later ← split_lines [] s; some (line ∷ later)) in
    let longer = split_lines (line ++ c ∷ []) s in if c == b'\n' then ended else longer

pub read_line : Tokenizer → Bytes → Option (List Str)
read_line words line = do text ← from_utf8 line; words text

abbrev pub begin_line : Bytes
begin_line = codes "command_list_ok_begin"

abbrev pub end_line : Bytes
end_line = codes "command_list_end"

-- The requests of the lines; inside a list, with its commands so far.
pub requests : Tokenizer → Option (List (List Str)) → List Bytes → Option (List Request)
unfolding read_line
requests words none [] = some []
requests words (some cs) [] = none
requests words none (line ∷ lines) =
    let list = requests words (some []) lines in
    let alone = (do
      ws ← read_line words line
      later ← requests words none lines
      some (single ws ∷ later)) in
    if equal line begin_line then list else alone
requests words (some cs) (line ∷ lines) =
    let closed = (do later ← requests words none lines; some (several cs ∷ later)) in
    let next = (do ws ← read_line words line; requests words (some (cs ++ ws ∷ [])) lines) in
    if equal line end_line then closed else next

pub read_requests : Tokenizer → Bytes → Option (List Request)
unfolding split_lines requests
read_requests words s = do lines ← split_lines [] s; requests words none lines
