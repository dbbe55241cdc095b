-- ===== src/Codec/Exchange.antt =====
-- The two directions over the codec of src/codec.rs: command lists are encoded, a server reads and answers them, and
-- its replies are decoded.
use mpd_protocol.Prelude.{
  suc, ◌+◌, ◌<◌, ◌≡◌, refl, sym, ap, ◌∙◌, subst, List, [], ◌∷◌, ◌++◌, append-nil, length, All,
  Bytes,
}
use mpd_protocol.Std.Utf8.{Str}
use mpd_protocol.Std.Number.{u64_max}
use mpd_protocol.Crates.{Crates, CratesLaws}
use mpd_protocol.Command.Render.{CommandList}
use mpd_protocol.Command.Requests.Spelling.{TokenizerLaws}
use mpd_protocol.Command.Requests.{Tokenizer, Request, read_requests}
use mpd_protocol.Command.Requests.RoundTrip.{Asks, render_lists, read_requests-render_lists}
use mpd_protocol.Sync.Session.{Sends, AllShow}
use mpd_protocol.Sync.Exchange.{Server, replies, answers, print_all, Expressible, print_all-Sends}
use mpd_protocol.Codec.{MpdCodec, new, encode_list}
use mpd_protocol.Codec.Calls.{joined, decode_stream}
use mpd_protocol.Codec.Stream.{decode_stream-AllShow}

-- The calls of `encode` on one buffer.
unfoldable pub encode_lists : (c : Crates) → MpdCodec c → List CommandList → Bytes → Bytes
unfolding encode_list
encode_lists c codec [] buf = buf
encode_lists c codec (l ∷ lists) buf = encode_lists c codec lists (encode_list c codec l buf)

pub encode_lists-render_lists :
    (c : Crates) (codec : MpdCodec c) (lists : List CommandList) (buf : Bytes)
    → encode_lists c codec lists buf ≡ render_lists c.bytes lists buf
unfolding encode_lists render_lists
encode_lists-render_lists c codec [] buf = refl
encode_lists-render_lists c codec (l ∷ lists) buf = encode_lists-render_lists c codec lists _

-- The client and a server over the codec: if the pieces that arrive are, together, what a server answers,
-- from any state of its own, that reads the bytes of the encoded lists, then the calls of `decode` return
-- exactly the server's replies to these lists, in order, and the input ends without an error. The server's
-- reader takes a line as the protocol documents it; the commands were built from a name that begins with
-- a letter and arguments that are texts without the character zero, each with a blank in it, so that it is
-- quoted, or without quotes, backslashes and control characters; the server's replies are ones that the
-- protocol can express; together they fit in memory.
pub exchange-decode_stream :
    {S : Type 0} (c : Crates) (version : Str) (words : Tokenizer) (serve : Server S) (st : S)
    (lists : List CommandList) (qs : List Request) (pieces : List Bytes)
    → CratesLaws c
    → TokenizerLaws words
    → Asks lists qs
    → joined pieces
      ≡ answers serve st (read_requests words (encode_lists c (new c version) lists []))
    → All Expressible (replies serve st qs)
    → length (joined pieces) < u64_max
    → AllShow
        (decode_stream c (suc (length (joined pieces) + length pieces)) (new c version) [] pieces)
        (replies serve st qs)
unfolding answers
exchange-decode_stream c version words serve st lists qs pieces laws documented asks comes
      expressible small =
    let read =
      ap (read_requests words) (encode_lists-render_lists c (new c version) lists [])
      ∙ read_requests-render_lists words lists qs laws.bytes documented asks in
    let ys = replies serve st qs in
    let carried : print_all ys ++ [] ≡ joined pieces =
      append-nil (print_all ys) ∙ sym (comes ∙ ap (answers serve st) read) in
    decode_stream-AllShow c version pieces ys laws
      (subst (λ s. Sends [] s ys) carried (print_all-Sends ys [] expressible)) small
