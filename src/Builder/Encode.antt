-- ===== src/Builder/Encode.antt =====
-- How a server spells a reply as messages, as the protocol describes it.
use mpd_protocol.Prelude.{
  ◌≡◌, ◌≢◌, refl, sym, subst, Option, none, some, List, [], ◌∷◌, ◌++◌, append_assoc, append-nil,
  Bytes,
}
use mpd_protocol.Std.Utf8.{Str}
use mpd_protocol.Parser.{Error}
use mpd_protocol.Parser.Wire.{Message, frame_end, response_end, ack, pair, blob}
use mpd_protocol.Builder.Abstract.{
  Section, Reply, blank, nothing_yet, settled, advance, Replies, now, later,
}

abbrev pub pair_messages : List (Str × Str) → List Message
pair_messages [] = []
pair_messages ((k, v) ∷ ps) = pair k v ∷ pair_messages ps

abbrev pub blob_messages : Option Bytes → List Message
blob_messages none = []
blob_messages (some b) = blob b ∷ []

abbrev pub section_messages : Section → List Message
section_messages s = pair_messages s.pairs ++ blob_messages s.binary

abbrev pub closed_messages : List Section → List Message
closed_messages [] = []
closed_messages (s ∷ ss) = section_messages s ++ (frame_end ∷ closed_messages ss)

-- One section alone is not closed; an error comes behind closed sections.
unfoldable pub encode_sections : List Section → Option Error → List Message
encode_sections ss (some e) = closed_messages ss ++ ack e ∷ []
encode_sections [] none = response_end ∷ []
encode_sections (s ∷ []) none = section_messages s ++ response_end ∷ []
encode_sections (s ∷ t ∷ ss) none = closed_messages (s ∷ t ∷ ss) ++ response_end ∷ []

unfoldable pub encode : Reply → List Message
unfolding encode_sections
encode y = encode_sections y.sections y.error

-- There is no reply with neither a section nor an error.
abbrev pub Speakable : Reply → Type 0
Speakable y = y.error ≡ none → y.sections ≢ []

module _ (y : Reply) where
  pairs-Replies :
      (ps qs : List (Str × Str)) (closed : List Section) (b : Option Bytes) (ms : List Message)
      → Replies y (record { closed = closed; current = record { pairs = qs ++ ps; binary = b } }) ms
      → Replies y
          (record { closed = closed; current = record { pairs = qs; binary = b } })
          (pair_messages ps ++ ms)
  unfolding advance
  pairs-Replies [] qs closed b ms h =
      subst
        (λ ps.
          Replies y (record { closed = closed; current = record { pairs = ps; binary = b } }) ms)
        (append-nil qs) h
  pairs-Replies ((k, v) ∷ ps) qs closed b ms h = later (pair k v) (pair_messages ps ++ ms) _ refl (
      pairs-Replies ps (qs ++ (k, v) ∷ []) closed b ms (
        subst
          (λ all.
            Replies y (record { closed = closed; current = record { pairs = all; binary = b } }) ms)
          (sym (append_assoc qs ((k, v) ∷ []) ps)) h))

  blob-Replies :
      (o : Option Bytes) (ps : List (Str × Str)) (closed : List Section) (ms : List Message)
      → Replies y (record { closed = closed; current = record { pairs = ps; binary = o } }) ms
      → Replies y
          (record { closed = closed; current = record { pairs = ps; binary = none } })
          (blob_messages o ++ ms)
  unfolding advance
  blob-Replies none ps closed ms h = h
  blob-Replies (some b) ps closed ms h = later (blob b) ms _ refl h

  section-Replies :
      (s : Section) (closed : List Section) (ms : List Message)
      → Replies y (record { closed = closed; current = s }) ms
      → Replies y (record { closed = closed; current = blank }) (section_messages s ++ ms)
  section-Replies s closed ms h =
      subst (Replies y (record { closed = closed; current = blank }))
        (sym (append_assoc (pair_messages s.pairs) (blob_messages s.binary) ms))
        (pairs-Replies s.pairs [] closed none (blob_messages s.binary ++ ms)
          (blob-Replies s.binary s.pairs closed ms h))

  closed-Replies :
      (ss closed : List Section) (ms : List Message)
      → Replies y (record { closed = closed ++ ss; current = blank }) ms
      → Replies y (record { closed = closed; current = blank }) (closed_messages ss ++ ms)
  unfolding advance
  closed-Replies [] closed ms h =
      subst (λ all. Replies y (record { closed = all; current = blank }) ms) (append-nil closed) h
  closed-Replies (s ∷ ss) closed ms h =
      subst (Replies y (record { closed = closed; current = blank }))
        (sym (append_assoc (section_messages s) (frame_end ∷ closed_messages ss) ms))
        (section-Replies s closed (frame_end ∷ (closed_messages ss ++ ms)) (
          later frame_end (closed_messages ss ++ ms) _ refl (
            closed-Replies ss (closed ++ s ∷ []) ms (
              subst (λ all. Replies y (record { closed = all; current = blank }) ms)
                (sym (append_assoc closed (s ∷ []) ss)) h))))

-- The messages of a reply reply it.
pub encode-Replies : (y : Reply) → Speakable y → Replies y nothing_yet (encode y)
unfolding encode advance settled
encode-Replies y speakable = by_parts y.sections y.error speakable
  where
    by_parts :
        (ss : List Section) (o : Option Error)
        → (o ≡ none → ss ≢ [])
        → Replies (record { sections = ss; error = o }) nothing_yet (encode_sections ss o)
    by_parts ss (some e) h =
        closed-Replies (record { sections = ss; error = some e }) ss [] (ack e ∷ [])
          (now (ack e) refl)
    by_parts [] none h = absurd (h refl refl)
    by_parts (s ∷ []) none h =
        section-Replies (record { sections = s ∷ []; error = none }) s [] (response_end ∷ [])
          (now response_end refl)
    by_parts (s ∷ t ∷ ss) none h =
        closed-Replies (record { sections = s ∷ t ∷ ss; error = none }) (s ∷ t ∷ ss) []
          (response_end ∷ []) (now response_end refl)
