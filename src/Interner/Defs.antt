-- ===== src/Interner/Defs.antt =====
-- `InternedKeys` and `intern_key` of src/response.rs.
use mpd_protocol.Interner.HashSet.{Arc, HashSetOps}
use mpd_protocol.Prelude.{ℕ, ◌+◌, Option, none, some}
use mpd_protocol.Std.Utf8.{Str}

module _ (h : HashSetOps) where
  -- `InternedKeys`, with the address that the allocator hands out next. Addresses only grow: the
  -- set keeps each key alive, so no address in it is handed out again.
  pub record InternedKeys : Type 0 where
    pub keys : h.Set
    pub next_addr : ℕ

  abbrev pub no_keys : InternedKeys
  no_keys = record { keys = h.default; next_addr = 0 }

  -- The branch on `interned_keys.get(key)`.
  intern_found : Option Arc → InternedKeys → Str → Arc × InternedKeys
  intern_found (some k) interned_keys key = (k, interned_keys)
  intern_found none interned_keys key =
      let k : Arc = record { addr = interned_keys.next_addr; text = key } in
      (k, record { keys = h.insert interned_keys.keys k; next_addr = interned_keys.next_addr + 1 })

  unfoldable pub intern_key : InternedKeys → Str → Arc × InternedKeys
  unfolding intern_found
  intern_key interned_keys key = intern_found (h.get interned_keys.keys key) interned_keys key
