-- ===== src/Errors.antt =====
-- `MpdProtocolError` of src/lib.rs.
use mpd_protocol.Prelude.{ℕ}

-- `std::io::Error`: the kind that the program makes itself, and any other, by a number.
pub data IoError : Type 0 where
  unexpected_eof : IoError
  other : ℕ → IoError

pub data MpdProtocolError : Type 0 where
  io : IoError → MpdProtocolError
  invalid_message : MpdProtocolError
