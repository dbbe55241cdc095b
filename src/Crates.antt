-- ===== src/Crates.antt =====
-- The third-party crates that the response reader stands on, together: `nom`, `bytes` and
-- `hashbrown`. They are one parameter of the model.
use mpd_protocol.Prelude.{subst}
use mpd_protocol.Nom.Laws.{NomOps, NomLaws}
use mpd_protocol.Nom.Reference
use mpd_protocol.Nom.Unique.{NomLaws_unique}
use mpd_protocol.BytesMut.{BytesOps, BytesLaws, list_bytes, list_bytes-BytesLaws, BytesLaws_unique}
use mpd_protocol.Interner.HashSet.{HashSetOps, HashSetLaws, list_set, list_set-HashSetLaws}

pub record Crates : Type 1 where
  pub nom : NomOps
  pub bytes : BytesOps
  pub set : HashSetOps

-- The crates do what they document.
pub record CratesLaws (c : Crates) : Type 1 where
  pub nom : NomLaws c.nom
  pub bytes : BytesLaws c.bytes
  pub set : HashSetLaws c.set

-- The reference implementations, over any set.
abbrev pub with_set : HashSetOps → Crates
with_set h = record { nom = Reference.nom; bytes = list_bytes; set = h }

abbrev pub reference : Crates
reference = with_set list_set

pub reference-CratesLaws : CratesLaws reference
reference-CratesLaws = record {
  nom = Reference.nom-NomLaws;
  bytes = list_bytes-BytesLaws;
  set = list_set-HashSetLaws;
}

-- What holds of the reference implementations over every lawful set holds of all lawful crates.
pub by_reference :
    {c : Crates} (P : Crates → Type 0)
    → CratesLaws c
    → (HashSetLaws c.set → P (with_set c.set))
    → P c
by_reference {c} P l p =
    subst P
      (λ j. record {
        nom = NomLaws_unique Reference.nom-NomLaws l.nom j;
        bytes = BytesLaws_unique list_bytes-BytesLaws l.bytes j;
        set = c.set;
      })
      (p l.set)
