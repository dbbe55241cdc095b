-- ===== src/Sync/BufRead.antt =====
-- `std::io::BufRead`: a buffer, and the results that the source behind it will give, in order. At the
-- end of them the source is at its end.
use mpd_protocol.Prelude.{ℕ, List, [], ◌∷◌, ◌++◌, drop, Bytes}
use mpd_protocol.Errors.{IoError}

pub data Fill : Type 0 where
  bytes : Bytes → Fill
  interruption : Fill
  failure : IoError → Fill

-- The bytes in the buffer, and what the source will give; then it is at its end for ever. So a source that is
-- interrupted without end is not expressed.
pub record Reader : Type 0 where
  pub buffered : Bytes
  pub fills : List Fill

-- The result of `fill_buf`: `ErrorKind::Interrupted` is set apart.
pub data FillResult : Type 0 where
  available : Bytes → FillResult
  interrupted : FillResult
  failed : IoError → FillResult

-- `fill_buf` asks the source only when the buffer is empty.
refill : List Fill → FillResult × Reader
refill [] = (available [], record { buffered = []; fills = [] })
refill (bytes b ∷ fs) = (available b, record { buffered = b; fills = fs })
refill (interruption ∷ fs) = (interrupted, record { buffered = []; fills = fs })
refill (failure e ∷ fs) = (failed e, record { buffered = []; fills = fs })

fill_from : Bytes → List Fill → FillResult × Reader
unfolding refill
fill_from [] fs = refill fs
fill_from (x ∷ b) fs = (available (x ∷ b), record { buffered = x ∷ b; fills = fs })

unfoldable pub fill_buf : Reader → FillResult × Reader
unfolding fill_from
fill_buf r = fill_from r.buffered r.fills

-- `consume`
abbrev pub consume : ℕ → Reader → Reader
consume n r = record r { buffered = drop n r.buffered }

-- The bytes that are still to come, however they are cut.
abbrev pub fills_bytes : List Fill → Bytes
fills_bytes [] = []
fills_bytes (bytes b ∷ fs) = b ++ fills_bytes fs
fills_bytes (interruption ∷ fs) = fills_bytes fs
fills_bytes (failure e ∷ fs) = fills_bytes fs

abbrev pub stream : Reader → Bytes
stream r = r.buffered ++ fills_bytes r.fills
