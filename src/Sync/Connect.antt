-- ===== src/Sync/Connect.antt =====
-- `connect`, `send` and `send_list` of src/sync.rs.
pub mod Handshake
use mpd_protocol.Prelude.{
  ℕ, ◌≡◌, ◌≢◌, ◌↔◌, refl, sym, ap, ◌∙◌, Bool, true, false, Option, none, some, List, [], ◌∷◌, ◌++◌,
  append_assoc, append-nil, arith, ◌==◌, if◌then◌else◌, Bool-cases, inl, inr, All, Bytes,
}
use mpd_protocol.Std.Utf8.{Str}
use mpd_protocol.Errors.{IoError, MpdProtocolError, io, invalid_message}
use mpd_protocol.Nom.Laws.{NomOps, NomLaws, IResult, done, incomplete, error, failure}
use mpd_protocol.BytesMut.{BytesOps}
use mpd_protocol.Parser.{greeting}
use mpd_protocol.Parser.Greeting.{Greets, greeting-eq-done_iff}
use mpd_protocol.Command.{Command}
use mpd_protocol.Command.Render.{CommandList, render_list, new as new_list}
use mpd_protocol.Sync.BufRead.{Fill, bytes, interruption, failure, Reader, fills_bytes, stream}
use mpd_protocol.Sync.Stream.{contains, first_line, after_line, Healthy}

-- `std::io::BufRead::read_until`: the error if there is one, the reader and the buffer after the call.
pub std_read_fills : ℕ → List Fill → Bytes → Option IoError × Reader × Bytes
std_read_fills d [] buf = (none, record { buffered = []; fills = [] }, buf)
std_read_fills d (interruption ∷ fs) buf = std_read_fills d fs buf
std_read_fills d (failure e ∷ fs) buf = (some e, record { buffered = []; fills = fs }, buf)
std_read_fills d (bytes [] ∷ fs) buf = (none, record { buffered = []; fills = fs }, buf)
std_read_fills d (bytes (x ∷ b) ∷ fs) buf =
    let further = std_read_fills d fs (buf ++ x ∷ b) in
    if contains d (x ∷ b)
    then (none, record { buffered = after_line d (x ∷ b); fills = fs }, buf ++ first_line d (x ∷ b))
    else further

pub std_read_from : ℕ → Bytes → List Fill → Bytes → Option IoError × Reader × Bytes
unfolding std_read_fills
std_read_from d [] fs buf = std_read_fills d fs buf
std_read_from d (x ∷ b) fs buf = std_read_fills d (bytes (x ∷ b) ∷ fs) buf

-- `Result<Box<str>, MpdProtocolError>`
pub data ConnectResult : Type 0 where
  connected : Str → ConnectResult
  refused : MpdProtocolError → ConnectResult

pub on_greeting : IResult Str → ConnectResult
on_greeting (done rest version) = connected version
on_greeting incomplete = refused invalid_message
on_greeting error = refused invalid_message
on_greeting failure = refused invalid_message

module _ (n : NomOps) where
  pub on_line : Option IoError × Reader × Bytes → ConnectResult × Reader
  unfolding on_greeting
  on_line (some e, r, line) = (refused (io e), r)
  on_line (none, r, line) = (on_greeting (greeting n line), r)

  -- `connect`
  unfoldable pub connect : Reader → ConnectResult × Reader
  unfolding on_line std_read_from
  connect r = on_line (std_read_from b'\n' r.buffered r.fills [])

-- `std::io::Write`: `write_all` gives the error if there is one, and the writer after the call.
pub record Write (W : Type 0) : Type 0 where
  pub write_all : W → Bytes → Option IoError × W

abbrev pub written : {W : Type 0} → Option IoError × W → Option MpdProtocolError × W
written (none, w) = (none, w)
written (some e, w) = (some (io e), w)

module _ {W : Type 0} (b : BytesOps) (w : Write W) where
  -- `send_list`
  unfoldable pub send_list : W → CommandList → Option MpdProtocolError × W
  send_list out list = written (w.write_all out (render_list b list b.new))

  -- `send`
  unfoldable pub send : W → Command → Option MpdProtocolError × W
  unfolding send_list
  send out command = send_list out (new_list command)
