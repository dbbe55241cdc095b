-- ===== src/Command/Requests/RoundTrip.antt =====
-- Command lists that are rendered one behind the other (src/command.rs), as a server reads them.
use mpd_protocol.Prelude.{
  ◌≡◌, ◌≢◌, refl, sym, ap, ◌∙◌, not, Option, none, some, List, [], ◌∷◌, ◌++◌, append_assoc,
  append-nil, arith, ◌==◌, equal, All, AllTest, Bytes, ◌>>=◌,
}
use mpd_protocol.Std.Utf8.{Str}
use mpd_protocol.BytesMut.{BytesOps, BytesLaws}
use mpd_protocol.Command.{Command}
use mpd_protocol.Command.Render.{CommandList, render_list, command_list_begin, command_list_end}
use mpd_protocol.Command.Render.Length.{lines, list_bytes, render_list-append}
use mpd_protocol.Command.Requests.Lines.{
  AllBuilt, Built, Readable, Built-Readable, split_line, split_marker, lines-Inside,
}
use mpd_protocol.Command.Requests.Spelling.{TokenizerLaws}
use mpd_protocol.Command.Requests.{
  Tokenizer, Request, single, several, split_lines, begin_line, end_line, requests, read_requests,
}

-- The request that a list makes.
abbrev pub AsksFor : Command → List Command → Request → Type 0
AsksFor head [] (single ws) = Built head ws
AsksFor head (c ∷ tail) (several wss) = AllBuilt (head ∷ c ∷ tail) wss
AsksFor _ _ _ = ⊥

abbrev and_request : Request → Option (List Request) → Option (List Request)
and_request q later = do qs ← later; some (q ∷ qs)

-- A list on the wire and the lines behind it: its lines are read as its request.
record ReadsList (words : Tokenizer) (head : Command) (tail : List Command) (q : Request)
    (s : Bytes) (ls : List Bytes) : Type 0 where
  before : List Bytes
  splits : split_lines [] (list_bytes head tail ++ s) ≡ some (before ++ ls)
  read_all : requests words none (before ++ ls) ≡ and_request q (requests words none ls)

alone :
    {words : Tokenizer} (command : Command) (ws : List Str) (r : Readable words command ws)
    (ls : List Bytes)
    → requests words none (r.bytes ∷ ls) ≡ and_request (single ws) (requests words none ls)
unfolding requests
alone command ws r ls = rw (r.not_begin, r.read) refl

opened :
    (words : Tokenizer) (ls : List Bytes)
    → requests words none (begin_line ∷ ls) ≡ requests words (some []) ls
unfolding requests equal
opened words ls = refl

closed :
    (words : Tokenizer) (acc : List (List Str)) (ls : List Bytes)
    → requests words (some acc) (end_line ∷ ls) ≡ and_request (several acc) (requests words none ls)
unfolding requests equal
closed words acc ls = refl

no_newline : (s : Bytes) → AllTest (λ c. not (c == b'\n')) s → All (λ c. c ≢ b'\n') s
no_newline [] h = tt
no_newline (c ∷ s) (hc, hs) = (ground arith, no_newline s hs)

list-ReadsList :
    {words : Tokenizer} (head : Command) (tail : List Command) (q : Request) (s : Bytes)
    (ls : List Bytes)
    → TokenizerLaws words
    → AsksFor head tail q
    → split_lines [] s ≡ some ls
    → ReadsList words head tail q s ls
list-ReadsList head [] (several wss) s ls laws h e = elim h [ ]
list-ReadsList head (_ ∷ _) (single ws) s ls laws h e = elim h [ ]
list-ReadsList head [] (single ws) s ls laws h e =
    let r = Built-Readable head ws laws h in
    record {
      before = r.bytes ∷ [];
      splits = split_line head ws r s ls e;
      read_all = alone head ws r ls;
    }
list-ReadsList {words} head (c ∷ tail) (several wss) s ls laws h e =
    let i =
      lines-Inside (head ∷ c ∷ tail) wss (command_list_end ++ s) (end_line ∷ ls) laws h
        (split_marker end_line s ls (no_newline end_line (ground arith)) e) in
    record {
      before = begin_line ∷ (i.before ++ end_line ∷ []);
      splits =
          ap (split_lines []) (
            append_assoc command_list_begin (lines (head ∷ c ∷ tail) ++ command_list_end) s
            ∙ ap (λ t. command_list_begin ++ t)
                (append_assoc (lines (head ∷ c ∷ tail)) command_list_end s))
          ∙ split_marker begin_line (lines (head ∷ c ∷ tail) ++ (command_list_end ++ s))
              (i.before ++ end_line ∷ ls) (no_newline begin_line (ground arith)) i.splits
          ∙ ap (λ t. some (begin_line ∷ t)) (sym (append_assoc i.before (end_line ∷ []) ls));
      read_all =
          opened words ((i.before ++ end_line ∷ []) ++ ls)
          ∙ ap (requests words (some [])) (append_assoc i.before (end_line ∷ []) ls)
          ∙ i.read_all []
          ∙ closed words wss ls;
    }

abbrev pub Asks : List CommandList → List Request → Type 0
Asks [] [] = Unit {0}
Asks (l ∷ lists) (q ∷ qs) = AsksFor l.head l.tail q × Asks lists qs
Asks _ _ = ⊥

abbrev pub lists_bytes : List CommandList → Bytes
lists_bytes [] = []
lists_bytes (l ∷ lists) = list_bytes l.head l.tail ++ lists_bytes lists

record ReadsLists (words : Tokenizer) (lists : List CommandList) (qs : List Request) : Type 0 where
  all_lines : List Bytes
  splits : split_lines [] (lists_bytes lists) ≡ some all_lines
  read_all : requests words none all_lines ≡ some qs

lists-ReadsLists :
    {words : Tokenizer} (lists : List CommandList) (qs : List Request)
    → TokenizerLaws words
    → Asks lists qs
    → ReadsLists words lists qs
lists-ReadsLists [] [] laws h = record {
  all_lines = [];
  splits = unfold split_lines in refl;
  read_all = unfold requests in refl;
}
lists-ReadsLists [] (_ ∷ _) laws h = elim h [ ]
lists-ReadsLists (_ ∷ _) [] laws h = elim h [ ]
lists-ReadsLists (l ∷ lists) (q ∷ qs) laws (h, hs) =
    let r = lists-ReadsLists lists qs laws hs in
    let first = list-ReadsList l.head l.tail q (lists_bytes lists) r.all_lines laws h r.splits in
    record {
      all_lines = first.before ++ r.all_lines;
      splits = first.splits;
      read_all = first.read_all ∙ rw r.read_all refl;
    }

pub read_requests-lists_bytes :
    (words : Tokenizer) (lists : List CommandList) (qs : List Request)
    → TokenizerLaws words
    → Asks lists qs
    → read_requests words (lists_bytes lists) ≡ some qs
unfolding read_requests
read_requests-lists_bytes words lists qs laws h =
    let r = lists-ReadsLists lists qs laws h in rw r.splits r.read_all

-- Lists that are rendered into one buffer, as the encoder of src/codec.rs does.
unfoldable pub render_lists : BytesOps → List CommandList → Bytes → Bytes
render_lists b [] dst = dst
render_lists b (l ∷ lists) dst = render_lists b lists (render_list b l dst)

pub render_lists-append :
    {b : BytesOps} (lists : List CommandList) (dst : Bytes)
    → BytesLaws b
    → render_lists b lists dst ≡ dst ++ lists_bytes lists
unfolding render_lists
render_lists-append [] dst laws = sym (append-nil dst)
render_lists-append (l ∷ lists) dst laws =
    render_lists-append lists _ laws
    ∙ rw (render_list-append l dst laws)
        (append_assoc dst (list_bytes l.head l.tail) (lists_bytes lists))

-- No argument can change what is asked for: if the server's reader takes a line as the protocol documents
-- it - a name, then arguments behind one blank each, which stand as they are or between double quotes -
-- then the bytes of rendered lists are read as exactly their requests, in order, each with its commands'
-- names and arguments. A list of one command asks for that command, a longer one for a list of its
-- commands. The commands were built from a name that begins with a letter and arguments that are texts
-- without the character zero, each with a blank in it, so that it is sent between quotes, or without
-- quotes, backslashes and control characters. Nothing is said of an argument with a quote or a backslash
-- and no blank, which is sent escaped but without quotes.
pub read_requests-render_lists :
    {b : BytesOps} (words : Tokenizer) (lists : List CommandList) (qs : List Request)
    → BytesLaws b
    → TokenizerLaws words
    → Asks lists qs
    → read_requests words (render_lists b lists []) ≡ some qs
read_requests-render_lists words lists qs laws documented asks =
    ap (read_requests words) (render_lists-append lists [] laws)
    ∙ read_requests-lists_bytes words lists qs documented asks
