-- ===== src/Tests/Keys.antt =====
-- Keys that come again, in one frame, in the next, and in the next response.
use mpd_protocol.Prelude.{List, [], ◌∷◌, Bytes, codes}
use mpd_protocol.Crates.{reference, reference-CratesLaws}
use mpd_protocol.Builder.Interned.Shares.{Share}
use mpd_protocol.Codec.{new}
use mpd_protocol.Codec.Calls.{decode_stream}
use mpd_protocol.Codec.Sharing.{results_keys, decode_stream-Share}

abbrev songs : List Bytes
songs =
    codes "id: 1\nfile: a\nid: 2\nlist_OK\nid: 3\nli" ∷ codes "st_OK\nOK\nfile: b\nid: 4\nOK\n" ∷ []

decode_stream-Share_example :
    Share (results_keys (decode_stream reference 9 (new reference (codes "0.23")) [] songs))
decode_stream-Share_example =
    decode_stream-Share reference (codes "0.23") 9 songs reference-CratesLaws
