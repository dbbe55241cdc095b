-- ===== src/Command/Render/Length.antt =====
-- Rendering appends a command's line to the buffer, and the length that is reserved for it is exact.
use mpd_protocol.Prelude.{
  ℕ, ◌+◌, ◌≡◌, refl, sym, ap, ◌∙◌, List, [], ◌∷◌, ◌++◌, append_assoc, append-nil, arith, length,
  length-append, Bytes, map,
}
use mpd_protocol.Std.Utf8.{as_bytes, len_utf8}
use mpd_protocol.BytesMut.{BytesOps, BytesLaws}
use mpd_protocol.Command.{Command}
use mpd_protocol.Command.Render.{
  CommandList, sum, rendered_length_hint, command_list_begin, command_list_end, render_args, render,
  render_all, render_branch, render_list,
}

-- The line of a command, as a byte string of its own.
abbrev pub arg_bytes : List (List ℕ) → Bytes
arg_bytes [] = []
arg_bytes (a ∷ as_) = b' ' ∷ (as_bytes a ++ arg_bytes as_)

abbrev pub line : Command → Bytes
line c = as_bytes c.base ++ (arg_bytes c.args ++ b'\n' ∷ [])

abbrev pub lines : List Command → Bytes
lines [] = []
lines (c ∷ cs) = line c ++ lines cs

-- What a list looks like on the wire: one command stands alone, more are wrapped.
abbrev pub list_bytes : Command → List Command → Bytes
list_bytes head [] = line head
list_bytes head (c ∷ tail) = command_list_begin ++ (lines (head ∷ c ∷ tail) ++ command_list_end)

module _ {b : BytesOps} (laws : BytesLaws b) where
  render_args-append :
      (args : List (List ℕ)) (dst : Bytes) → render_args b args dst ≡ dst ++ arg_bytes args
  unfolding render_args
  render_args-append [] dst = sym (append-nil dst)
  render_args-append (a ∷ args) dst =
      render_args-append args _
      ∙ rw (laws.extend_from_slice_lem, laws.put_u8_lem) (simp append_assoc)

  render-append : (c : Command) (dst : Bytes) → render b c dst ≡ dst ++ line c
  unfolding render
  render-append c dst =
      laws.put_u8_lem _ _
      ∙ ap (λ out. out ++ b'\n' ∷ [])
          (render_args-append c.args _
            ∙ ap (λ out. out ++ arg_bytes c.args) (laws.extend_from_slice_lem dst _))
      ∙ simp append_assoc

  render_all-append : (cs : List Command) (dst : Bytes) → render_all b cs dst ≡ dst ++ lines cs
  unfolding render_all
  render_all-append [] dst = sym (append-nil dst)
  render_all-append (c ∷ cs) dst =
      render_all-append cs _ ∙ rw (render-append c dst) (append_assoc dst (line c) (lines cs))

  render_branch-append :
      (head : Command) (tail : List Command) (dst : Bytes)
      → render_branch b head tail dst ≡ dst ++ list_bytes head tail
  unfolding render_branch
  render_branch-append head [] dst = rw laws.reserve_lem (render-append head dst)
  render_branch-append head (c ∷ tail) dst =
      laws.extend_from_slice_lem _ _
      ∙ ap (λ out. out ++ command_list_end)
          (render_all-append (head ∷ c ∷ tail) _
            ∙ ap (λ out. out ++ lines (head ∷ c ∷ tail))
                (laws.extend_from_slice_lem _ _
                  ∙ ap (λ out. out ++ command_list_begin) (laws.reserve_lem dst _)))
      ∙ simp append_assoc

-- Rendering a list appends its wire form to what the buffer holds: the line of its only command, or
-- the lines of all commands in order between the two list markers.
pub render_list-append :
    {b : BytesOps} (l : CommandList) (dst : Bytes)
    → BytesLaws b
    → render_list b l dst ≡ dst ++ list_bytes l.head l.tail
unfolding render_list
render_list-append l dst laws = render_branch-append laws l.head l.tail dst

length-arg_bytes :
    (args : List (List ℕ))
    → length (arg_bytes args) ≡ length args + sum (map (λ a. len_utf8 a) args)
length-arg_bytes [] = refl
length-arg_bytes (a ∷ args) =
    omega (arith, length-append {0} (as_bytes a) (arg_bytes args), length-arg_bytes args)

length-line : (c : Command) → length (line c) ≡ rendered_length_hint c
unfolding rendered_length_hint
length-line c = omega (
  arith,
  length-append {0} (as_bytes c.base) (arg_bytes c.args ++ b'\n' ∷ []),
  length-append {0} (arg_bytes c.args) (b'\n' ∷ []),
  length-arg_bytes c.args,
)

-- `rendered_length_hint` is exact: it is the number of bytes that rendering appends.
pub rendered_length_hint_exact :
    {b : BytesOps} (c : Command) (dst : Bytes)
    → BytesLaws b
    → length (render b c dst) ≡ length dst + rendered_length_hint c
rendered_length_hint_exact c dst laws =
    rw (render-append laws c dst) (omega (arith, length-append {0} dst (line c), length-line c))
