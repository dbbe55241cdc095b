-- ===== src/Codec/Sharing.antt =====
-- The keys of all responses that the decoder of src/codec.rs returns on one connection: `MpdCodec` keeps the
-- interned keys from response to response.
use mpd_protocol.Prelude.{
  ℕ, zero, suc, ◌≡◌, refl, if◌then◌else◌, Bool, true, false, not, ◌||◌, none, some, List, [], ◌∷◌,
  ◌++◌, All, All-append, Bytes,
}
use mpd_protocol.Std.Utf8.{Str}
use mpd_protocol.Errors.{unexpected_eof, io}
use mpd_protocol.Crates.{Crates, CratesLaws}
use mpd_protocol.Interner.{Arc, InternedKeys}
use mpd_protocol.Builder.{
  ParseResult, ok, err, panicked, out_of_fuel, parse_buffer, is_frame_in_progress,
}
use mpd_protocol.Builder.Interned.{KeyIn, StateIn, Grows, ResultIn, frames-Grows}
use mpd_protocol.Builder.Interned.Shares.{
  frame_keys, frame_keys_in, Share, Share-in, parse_buffer-In,
}
use mpd_protocol.Codec.{is_empty, MpdCodec, new, decode, decode_eof}
use mpd_protocol.Codec.Calls.{at_end, after_decode, decode_stream}

-- The keys of the fields of all responses, in order.
abbrev pub results_keys : List ParseResult → List Arc
results_keys [] = []
results_keys (ok (some response) ∷ results) = frame_keys response.frames ++ results_keys results
results_keys (ok none ∷ results) = results_keys results
results_keys (err e ∷ results) = results_keys results
results_keys (panicked ∷ results) = results_keys results
results_keys (out_of_fuel ∷ results) = results_keys results

module _ (c : Crates) where
  -- All keys of the results are in one set, that has grown from the one before.
  record AllIn (keys : InternedKeys c.set) (results : List ParseResult) : Type 0 where
    last : InternedKeys c.set
    grows : Grows keys last
    all_in : All (KeyIn last) (results_keys results)

  no_keys-AllIn :
      (keys : InternedKeys c.set) (results : List ParseResult)
      → results_keys results ≡ []
      → AllIn keys results
  no_keys-AllIn keys results e = record { last = keys; grows = λ k a h. h; all_in = rw e tt }

  eof_keys :
      (codec : MpdCodec c) (buf : Bytes) → results_keys (at_end (decode_eof c codec buf)) ≡ []
  unfolding at_end decode_eof
  eof_keys codec buf =
      by_test (not (is_empty buf) || is_frame_in_progress codec.current_response.state)
    where
      by_test :
          (t : Bool) → results_keys (at_end (if t then err (io unexpected_eof) else ok none)) ≡ []
      by_test true = refl
      by_test false = refl

  after-AllIn :
      (loop : MpdCodec c → Bytes → List Bytes → List ParseResult) (keys : InternedKeys c.set)
      (result : ParseResult) (codec : MpdCodec c) (left : Bytes) (pieces : List Bytes)
      → Grows keys codec.current_response.fields
      → StateIn codec.current_response.fields codec.current_response.state
      → ResultIn codec.current_response.fields result
      → ((buf : Bytes) (pieces : List Bytes)
          → AllIn codec.current_response.fields (loop codec buf pieces))
      → AllIn keys (after_decode c loop (result, codec, left) pieces)
  unfolding after_decode
  after-AllIn loop keys (ok (some response)) codec left pieces grows is js later =
      let rest = later left pieces in
      record {
        last = rest.last;
        grows = λ k a e. rest.grows k a (grows k a e);
        all_in =
            All-append (KeyIn rest.last) (frame_keys response.frames)
              (results_keys (loop codec left pieces))
              (frame_keys_in c.set rest.last response.frames (
                frames-Grows codec.current_response.fields rest.last response.frames rest.grows js))
              rest.all_in;
      }
  after-AllIn loop keys (ok none) codec left [] grows is js later =
      no_keys-AllIn keys _ (eof_keys codec left)
  after-AllIn loop keys (ok none) codec left (piece ∷ pieces) grows is js later =
      let rest = later (left ++ piece) pieces in
      record {
        last = rest.last;
        grows = λ k a e. rest.grows k a (grows k a e);
        all_in = rest.all_in;
      }
  after-AllIn loop keys (err e) codec left pieces grows is js later = no_keys-AllIn keys _ refl
  after-AllIn loop keys panicked codec left pieces grows is js later = no_keys-AllIn keys _ refl
  after-AllIn loop keys out_of_fuel codec left pieces grows is js later = no_keys-AllIn keys _ refl

  stream-AllIn :
      (laws : CratesLaws c) (fuel : ℕ) (codec : MpdCodec c) (buf : Bytes) (pieces : List Bytes)
      → StateIn codec.current_response.fields codec.current_response.state
      → AllIn codec.current_response.fields (decode_stream c fuel codec buf pieces)
  unfolding decode_stream decode
  stream-AllIn laws zero codec buf pieces is = no_keys-AllIn _ _ refl
  stream-AllIn laws (suc fuel) codec buf pieces is =
      let (grows, js, ks) = parse_buffer-In codec.current_response buf laws is in
      let (result, b, left) = parse_buffer c codec.current_response buf in
      after-AllIn (decode_stream c fuel) codec.current_response.fields result
        (record codec { current_response = b }) left pieces grows js ks
        λ buf' pieces'.
          stream-AllIn laws fuel (record codec { current_response = b }) buf' pieces' js

-- Keys are shared over a whole connection: in all responses that the decoder of a new connection returns,
-- one call after the other, fields whose keys have the same text share one allocation, however the
-- bytes arrive and whatever they are.
pub decode_stream-Share :
    (c : Crates) (version : Str) (fuel : ℕ) (pieces : List Bytes)
    → CratesLaws c
    → Share (results_keys (decode_stream c fuel (new c version) [] pieces))
decode_stream-Share c version fuel pieces laws =
    let all = stream-AllIn c laws fuel (new c version) [] pieces tt in
    let keys = results_keys (decode_stream c fuel (new c version) [] pieces) in
    Share-in c.set all.last keys keys all.all_in all.all_in
