-- ===== src/Sync/Exchange.antt =====
-- The two directions together: command lists are sent (`send_list` of src/sync.rs), a server reads and answers
-- them, and its replies are received (`receive`).
use mpd_protocol.Prelude.{
  ℕ, suc, ◌<◌, ◌≡◌, refl, sym, ap, ◌∙◌, subst, Option, none, some, List, [], ◌∷◌, ◌++◌,
  append_assoc, append-nil, length, All, Bytes,
}
use mpd_protocol.Std.Number.{u64_max}
use mpd_protocol.Errors.{MpdProtocolError, IoError}
use mpd_protocol.Crates.{Crates, CratesLaws}
use mpd_protocol.BytesMut.{BytesOps, BytesLaws}
use mpd_protocol.Command.Render.{CommandList, render_list}
use mpd_protocol.Command.Render.Length.{list_bytes, render_list-append}
use mpd_protocol.Command.Requests.Spelling.{TokenizerLaws}
use mpd_protocol.Command.Requests.{Tokenizer, Request, read_requests}
use mpd_protocol.Command.Requests.RoundTrip.{Asks, lists_bytes, read_requests-lists_bytes}
use mpd_protocol.Builder.Abstract.{Reply}
use mpd_protocol.Builder.Encode.{Speakable, encode, encode-Replies}
use mpd_protocol.Builder.Print.{Sendable, print, print-OnWire}
use mpd_protocol.Sync.BufRead.{Reader, stream}
use mpd_protocol.Sync.Stream.{MemchrLaws, Healthy}
use mpd_protocol.Sync.Connect.{Write, written, send_list}
use mpd_protocol.Sync.Session.{receive_times, Sends, silent, sends, AllShow, receive_times-AllShow}

-- Where `write_all` succeeds, all the bytes are written, behind those that were.
pub record WriteLaws {W : Type 0} (w : Write W) (sent : W → Bytes) : Type 0 where
  pub write_all_lem :
      (out : W) (bytes : Bytes) {out' : W}
      → w.write_all out bytes ≡ (none, out')
      → sent out' ≡ sent out ++ bytes

module _ {W : Type 0} (b : BytesOps) (w : Write W) where
  then_send :
      (W → Option MpdProtocolError × W) → Option MpdProtocolError × W → Option MpdProtocolError × W
  then_send later (none, out) = later out
  then_send later (some e, out) = (some e, out)

  -- The lists are sent in turn, up to the first error.
  unfoldable pub send_lists : List CommandList → W → Option MpdProtocolError × W
  unfolding then_send
  send_lists [] out = (none, out)
  send_lists (l ∷ lists) out = then_send (send_lists lists) (send_list b w out l)

module _ {W : Type 0} {w : Write W} {sent : W → Bytes} (b : BytesOps) (laws : BytesLaws b)
    (writes : WriteLaws w sent) where
  send_list-writes :
      (l : CommandList) (out : W) {out' : W}
      → send_list b w out l ≡ (none, out')
      → sent out' ≡ sent out ++ list_bytes l.head l.tail
  unfolding send_list
  send_list-writes l out {out'} e =
      writes.write_all_lem out _ (succeeded (w.write_all out (render_list b l b.new)) e)
      ∙ ap (λ t. sent out ++ t) (render_list-append l b.new laws ∙ rw laws.new_lem refl)
    where
      succeeded : (p : Option IoError × W) → written p ≡ (none, out') → p ≡ (none, out')
      succeeded (none, o) h = cc
      succeeded (some e, o) h = cc

  first_sent :
      (later : W → Option MpdProtocolError × W) (p : Option MpdProtocolError × W) {out' : W}
      → then_send b w later p ≡ (none, out')
      → (mid : W) × (p ≡ (none, mid)) × (later mid ≡ (none, out'))
  unfolding then_send
  first_sent later (none, mid) e = (mid, refl, e)
  first_sent later (some why, mid) e = cc

  pub send_lists-writes :
      (lists : List CommandList) (out : W) {out' : W}
      → send_lists b w lists out ≡ (none, out')
      → sent out' ≡ sent out ++ lists_bytes lists
  unfolding send_lists
  send_lists-writes [] out {out'} e = cc (append-nil (sent out), e)
  send_lists-writes (l ∷ lists) out {out'} e =
      let (mid, first, rest) = first_sent (send_lists b w lists) (send_list b w out l) e in
      send_lists-writes lists mid rest
      ∙ rw (send_list-writes l out first)
          (append_assoc (sent out) (list_bytes l.head l.tail) (lists_bytes lists))

-- A server with a state of its own: the reply to a request depends on it, and changes it.
abbrev pub Server : Type 0 → Type 0
Server S = S → Request → Reply × S

-- Its replies to requests that come in turn.
abbrev pub replies : {S : Type 0} → Server S → S → List Request → List Reply
replies serve st [] = []
replies serve st (q ∷ qs) = let (reply, later) = serve st q in reply ∷ replies serve later qs

unfoldable pub print_all : List Reply → Bytes
print_all [] = []
print_all (y ∷ ys) = print y ++ print_all ys

-- What the server writes for the requests that it reads: its replies in turn, or nothing where it cannot
-- read the input.
unfoldable pub answers : {S : Type 0} → Server S → S → Option (List Request) → Bytes
unfolding print_all
answers serve st none = []
answers serve st (some qs) = print_all (replies serve st qs)

-- A reply that the protocol can express, and that fits in memory.
abbrev pub Expressible : Reply → Type 0
Expressible y = Speakable y × All Sendable (encode y) × (length (print y) < u64_max)

pub print_all-Sends :
    (ys : List Reply) (rest : Bytes) → All Expressible ys → Sends rest (print_all ys ++ rest) ys
unfolding print_all
print_all-Sends [] rest h = silent
print_all-Sends (y ∷ ys) rest ((speakable, sendable, small), hs) =
    sends (print y) (print_all ys ++ rest) (encode y) y ys
      (append_assoc (print y) (print_all ys) rest) small (print-OnWire y sendable)
      (encode-Replies y speakable) (print_all-Sends ys rest hs)

length-replies :
    {S : Type 0} (serve : Server S) (st : S) (qs : List Request)
    → length (replies serve st qs) ≡ length qs
length-replies serve st [] = refl
length-replies serve st (q ∷ qs) = ap suc (length-replies serve (serve st q).1 qs)

Asks-length :
    (lists : List CommandList) (qs : List Request) → Asks lists qs → length lists ≡ length qs
Asks-length [] [] h = refl
Asks-length (l ∷ lists) (q ∷ qs) (h, hs) = ap suc (Asks-length lists qs hs)
Asks-length [] (_ ∷ _) h = elim h [ ]
Asks-length (_ ∷ _) [] h = elim h [ ]

-- Command lists that were sent without an error stand on the wire such that exactly their requests are read,
-- in order.
pub read_requests-send_lists :
    {W : Type 0} {w : Write W} {sent : W → Bytes} (b : BytesOps) (words : Tokenizer)
    (lists : List CommandList) (qs : List Request) (out out' : W)
    → BytesLaws b
    → TokenizerLaws words
    → WriteLaws w sent
    → Asks lists qs
    → sent out ≡ []
    → send_lists b w lists out ≡ (none, out')
    → read_requests words (sent out') ≡ some qs
read_requests-send_lists {sent = sent} b words lists qs out out' laws documented writes asks fresh
      done =
    ap (read_requests words)
      (send_lists-writes b laws writes lists out done ∙ ap (λ t. t ++ lists_bytes lists) fresh)
    ∙ read_requests-lists_bytes words lists qs documented asks

-- The client and a server, which has a state: its reply to a request may depend on all that came before.
-- Once the lists are sent without an error, and the source carries what the server answers, from any state,
-- that reads the bytes that were written, as many calls of `receive` as there are lists return the
-- server's replies to these lists, in order, and leave what is behind them. The server's reader takes a line
-- as the protocol documents it; the commands were built from a name that begins with a letter and arguments
-- that are texts without the character zero, each with a blank in it, so that it is quoted, or without
-- quotes, backslashes and control characters; the server's replies are ones that the protocol can express
-- and that fit in memory; and the source does not fail.
pub exchange-AllShow :
    {W : Type 0} {w : Write W} {sent : W → Bytes} {S : Type 0} (c : Crates)
    (memchr : ℕ → Bytes → Option ℕ) (words : Tokenizer) (serve : Server S) (st : S)
    (lists : List CommandList) (qs : List Request) (out out' : W) (r : Reader) (rest : Bytes)
    → CratesLaws c
    → MemchrLaws memchr
    → TokenizerLaws words
    → WriteLaws w sent
    → Asks lists qs
    → sent out ≡ []
    → send_lists c.bytes w lists out ≡ (none, out')
    → All Healthy r.fills
    → stream r ≡ answers serve st (read_requests words (sent out')) ++ rest
    → All Expressible (replies serve st qs)
    → AllShow (receive_times c memchr (length lists) r).0 (replies serve st qs)
      × (stream (receive_times c memchr (length lists) r).1 ≡ rest)
unfolding answers
exchange-AllShow {sent = sent} c memchr words serve st lists qs out out' r rest laws found
      documented writes asks fresh done healthy comes expressible =
    let read =
      read_requests-send_lists c.bytes words lists qs out out' laws.bytes documented writes asks
        fresh done in
    let ys = replies serve st qs in
    let carried : stream r ≡ print_all ys ++ rest =
      comes ∙ ap (λ o. answers serve st o ++ rest) read in
    subst
      (λ n.
        AllShow (receive_times c memchr n r).0 ys × (stream (receive_times c memchr n r).1 ≡ rest))
      (length-replies serve st qs ∙ sym (Asks-length lists qs asks))
      (receive_times-AllShow c memchr r rest ys laws found healthy
        (subst (λ s. Sends rest s ys) (sym carried) (print_all-Sends ys rest expressible)))
