-- ===== src/Garden/Checkpoint.antt =====
-- garden/garden.go: `Checkpoint`
pub mod Keeps
use sgard.Base.{
  ℕ, true, false, List, Text, Bytes, ◌==◌, if◌then◌else◌, Result, ok, err, Exec, update_each,
}
use sgard.Paths.{expand_tilde_path}
use sgard.Manifest.{Entry, file_type, link_type}
use sgard.Mode.{format_mode}
use sgard.Targeting.{entry_applies}
use sgard.Store
use sgard.Host.{Host}
use sgard.Garden.{Garden, Repo, with_manifest, save_manifest}
use sgard.Garden.Crypt.{encrypt_blob}
use sgard.Garden.Identity.{identity}

module _ (h : Host) (g : Garden) (now : ℕ) where
  -- The encrypted case: a new blob only where the plaintext's hash differs
  unfoldable pub checkpoint_encrypted :
      Bytes → Entry → h.State → Result (Unit {0}) × Entry × h.State
  checkpoint_encrypted bytes e s =
      if Store.hash_of h bytes == e.plaintext_hash
      then (ok tt, e, s)
      else let (r, s') = encrypt_blob h g.dek bytes s in
        elim r [
          | err x ↦ (err x, e, s')
          | ok ct ↦
              let (r', s'') = Store.write h g.root ct s' in
              elim r' [
                | err x ↦ (err x, e, s'')
                | ok hash ↦ (
                  ok tt,
                  record e { hash = hash; plaintext_hash = Store.hash_of h bytes; updated = now },
                  s'',
                )
              ]
        ]

  -- The other case, which `MirrorUp` shares: the bytes to the store, and the hash compared
  unfoldable pub rehash : Bytes → Entry → h.State → Result (Unit {0}) × Entry × h.State
  rehash bytes e s =
      let (r, s') = Store.write h g.root bytes s in
      elim r [
        | err x ↦ (err x, e, s')
        | ok hash ↦
            if hash == e.hash
            then (ok tt, e, s')
            else (ok tt, record e { hash = hash; updated = now }, s')
      ]

  unfoldable pub checkpoint_file : Text → Entry → h.State → Result (Unit {0}) × Entry × h.State
  checkpoint_file path e s = elim (h.read_file path s) [
    | err x ↦ (err x, e, s)
    | ok bytes ↦ if e.encrypted then checkpoint_encrypted bytes e s else rehash bytes e s
  ]

  unfoldable pub checkpoint_link : Text → Entry → h.State → Result (Unit {0}) × Entry × h.State
  checkpoint_link path e s = elim (h.readlink path s) [
    | err x ↦ (err x, e, s)
    | ok target ↦
        if target == e.target
        then (ok tt, e, s)
        else (ok tt, record e { target = target; updated = now }, s)
  ]

  -- The switch on the entry's type
  unfoldable pub checkpoint_content : Text → Entry → h.State → Result (Unit {0}) × Entry × h.State
  checkpoint_content path e s =
      if e.type == file_type
      then checkpoint_file path e s
      else if e.type == link_type
      then checkpoint_link path e s
      else (ok tt, e, s)

  -- The body of the loop. The mode is taken over before the test for locked entries.
  unfoldable pub checkpoint_entry :
      List Text → Entry → h.State → Result (Unit {0}) × Entry × h.State
  checkpoint_entry labels e s = elim (entry_applies e labels) [
    | err x ↦ (err x, e, s)
    | ok false ↦ (ok tt, e, s)
    | ok true ↦ elim (expand_tilde_path h.home e.path) [
      | err x ↦ (err x, e, s)
      | ok path ↦ elim (h.lstat path s) [
        | err _ ↦ (ok tt, e, s)
        | ok info ↦
            let e' = record e { mode = format_mode info.perm } in
            if e.locked then (ok tt, e', s) else checkpoint_content path e' s
      ]
    ]
  ]

module _ (h : Host) where
  -- `Checkpoint`
  unfoldable pub checkpoint : Text → ℕ → Exec (Repo h) (Unit {0})
  checkpoint message now s =
      let m = s.garden.manifest in
      let labels = identity h s.garden.root s.disk in
      let (r, es, d) = update_each (checkpoint_entry h s.garden now labels) m.files s.disk in
      let s' = record s { disk = d } in
      elim r [
        | err x ↦ (err x, with_manifest (record m { files = es }) s')
        | ok _ ↦
            save_manifest h
              (with_manifest (record m { files = es; updated = now; message = message }) s')
      ]
