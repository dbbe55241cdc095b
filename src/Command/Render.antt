-- ===== src/Command/Render.antt =====
-- The wire representation of commands, and command lists (src/command.rs).
pub mod Length
use mpd_protocol.Prelude.{
  ℕ, suc, ◌+◌, Bool, true, false, List, [], ◌∷◌, ◌++◌, if◌then◌else◌, length, Bytes, codes, map,
}
use mpd_protocol.Std.Utf8.{as_bytes, len_utf8}
use mpd_protocol.BytesMut.{BytesOps}
use mpd_protocol.Command.{Command}

-- `first` is called `head` here.
pub record CommandList : Type 0 where
  pub head : Command
  pub tail : List Command

-- `CommandList::new`
abbrev pub new : Command → CommandList
new first = record { head = first; tail = [] }

-- `CommandList::add`, and `CommandList::command`
abbrev pub add : CommandList → Command → CommandList
add l command = record l { tail = l.tail ++ command ∷ [] }

-- `Extend::extend`
abbrev pub extend : CommandList → List Command → CommandList
extend l commands = record l { tail = l.tail ++ commands }

-- `CommandList::len`
abbrev pub list_len : CommandList → ℕ
list_len l = 1 + length l.tail

-- `iter::once(first).chain(tail)`
abbrev pub commands : CommandList → List Command
commands l = l.head ∷ l.tail

abbrev pub sum : List ℕ → ℕ
sum [] = 0
sum (n ∷ ns) = n + sum ns

-- `Command::rendered_length_hint`
pub rendered_length_hint : Command → ℕ
rendered_length_hint c = len_utf8 c.base + length c.args + sum (map (λ a. len_utf8 a) c.args) + 1

-- `COMMAND_LIST_BEGIN` and `COMMAND_LIST_END`
abbrev pub command_list_begin : Bytes
command_list_begin = codes "command_list_ok_begin\n"

abbrev pub command_list_end : Bytes
command_list_end = codes "command_list_end\n"

module _ (b : BytesOps) where
  -- The loop over the arguments.
  render_args : List (List ℕ) → Bytes → Bytes
  render_args [] dst = dst
  render_args (arg ∷ args) dst =
      render_args args (b.extend_from_slice (b.put_u8 dst b' ') (as_bytes arg))

  -- `Command::render`: the buffer after the call.
  unfoldable pub render : Command → Bytes → Bytes
  unfolding render_args
  render c dst = b.put_u8 (render_args c.args (b.extend_from_slice dst (as_bytes c.base))) b'\n'

  render_all : List Command → Bytes → Bytes
  unfolding render
  render_all [] dst = dst
  render_all (c ∷ cs) dst = render_all cs (render c dst)

  -- The branch on `self.tail.is_empty()`.
  render_branch : Command → List Command → Bytes → Bytes
  unfolding render render_all rendered_length_hint
  render_branch head [] dst = render head (b.reserve dst (rendered_length_hint head))
  render_branch head (c ∷ tail) dst =
      let commands_len = sum (map rendered_length_hint (head ∷ c ∷ tail)) in
      let reserved =
        b.reserve dst (length command_list_begin + commands_len + length command_list_end) in
      b.extend_from_slice
        (render_all (head ∷ c ∷ tail) (b.extend_from_slice reserved command_list_begin))
        command_list_end

  -- `CommandList::render`
  unfoldable pub render_list : CommandList → Bytes → Bytes
  unfolding render_branch
  render_list l dst = render_branch l.head l.tail dst
