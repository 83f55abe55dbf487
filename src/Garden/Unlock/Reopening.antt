-- ===== src/Garden/Unlock/Reopening.antt =====
-- A repository whose encryption was set up is read from the disk anew, and unlocked by its passphrase.
use sgard.Base.{
  ◌≡◌, refl, ◌∙◌, sym, ap, subst, ◌++◌, Bool-cases, inl, inr, Option, none, some, [], ◌∷◌, Text,
  Bytes, codes, ◌==◌, Result, ok, err, encryption_initialized, encryption_not_initialized, pure,
  >>=-eq-ok,
}
use sgard.Paths.{abs, join, base}
use sgard.Manifest.{Manifest, Encryption}
use sgard.Manifest.Disk.{save, load}
use sgard.Store
use sgard.Store.Laws.{write_atomically-read}
use sgard.Host.{Host}
use sgard.Host.Laws.{DiskLaws}
use sgard.Host.Atomic.{write_atomically}
use sgard.Garden.{Garden, Repo, save_manifest, new_garden, open_repo}
use sgard.Garden.Crypt.{seal_random, open_sealed}
use sgard.Garden.Crypt.RoundTrip.{CipherLaws, open_sealed-seal_random}
use sgard.Garden.Slots.{
  Kdf, Slots, dek_size, salt_size, derive_kek, first_slot, passphrase_slot, find_slot, init_keys,
  encrypt_init, on_disk, with_dek, with_encryption,
}
use sgard.Garden.Unlock.{
  Device, unlock_dek, unlock_fido2, try_slots, try_slot, unlock_passphrase, passphrase_kek,
  unwrap_slot,
}

module _ {h : Host} where
  -- The repository without its key
  abbrev locked : Repo h → Repo h
  locked s = record s { garden = record s.garden { dek = none } }

module _ (h : Host) (kdf : Kdf) where
  abbrev only_slot : Bytes → Bytes → Slots
  only_slot salt wrapped = (passphrase_slot, first_slot (kdf.encode salt) (kdf.encode wrapped)) ∷ []

  -- No device is asked for a passphrase slot.
  unlock_fido2-only :
      (device : Option (Device h)) (salt wrapped : Bytes) (s : h.State)
      → unlock_fido2 h kdf device (only_slot salt wrapped) s ≡ (none, s)
  unfolding unlock_fido2 try_slots try_slot ◌==◌
  unlock_fido2-only none salt wrapped s = refl
  unlock_fido2-only (some device) salt wrapped s = elim (Bool-cases device.available) [
    | inl there ↦ rw there refl
    | inr gone ↦ rw gone refl
  ]

  module _ (decodes : (bs : Bytes) → kdf.decode (kdf.encode bs) ≡ ok bs) where
    unwrap_only :
        (kek salt wrapped dek : Bytes)
        → open_sealed h kek wrapped ≡ ok dek
        → unwrap_slot h kdf kek (first_slot (kdf.encode salt) (kdf.encode wrapped)) ≡ ok dek
    unfolding unwrap_slot
    unwrap_only kek salt wrapped dek opens = rw (decodes wrapped, unwrap_slot) opens

    unlock_passphrase-only :
        (passphrase : Text) (salt wrapped dek : Bytes) (s : h.State)
        → open_sealed h (derive_kek kdf passphrase salt 3 65536 4) wrapped ≡ ok dek
        → unlock_passphrase h kdf (some (pure passphrase)) (only_slot salt wrapped) s ≡ (ok dek, s)
    unfolding unlock_passphrase passphrase_kek unwrap_slot find_slot ◌==◌
    unlock_passphrase-only passphrase salt wrapped dek s opens = rw (decodes salt) (
        ap (λ (r : Result Bytes). (r, s))
          (unwrap_only (derive_kek kdf passphrase salt 3 65536 4) salt wrapped dek opens))

    reopened :
        (passphrase : Text) (device : Option (Device h)) (salt wrapped dek : Bytes)
        (algorithm : Text) (s : Repo h)
        → s.garden.dek ≡ some dek
        → s.garden.manifest.encryption
          ≡ some (record { algorithm = algorithm; kek_slots = only_slot salt wrapped })
        → open_sealed h (derive_kek kdf passphrase salt 3 65536 4) wrapped ≡ ok dek
        → unlock_dek h kdf (some (pure passphrase)) device (locked s) ≡ (ok tt, s)
    unfolding unlock_dek
    reopened passphrase device salt wrapped dek algorithm s keyed encrypted opens =
        ap by_encryption encrypted
        ∙ ap by_device (unlock_fido2-only device salt wrapped s.disk)
        ∙ ap by_passphrase (unlock_passphrase-only passphrase salt wrapped dek s.disk opens)
        ∙ ap (λ (k : Option Bytes). (ok tt, record s { garden = record s.garden { dek = k } }))
            (sym keyed)
      where
        by_passphrase : Result Bytes × h.State → Result (Unit {0}) × Repo h
        by_passphrase out = elim out.0 [
          | err x ↦ (err x, record (locked s) { disk = out.1 })
          | ok k ↦ (ok tt, with_dek k (record (locked s) { disk = out.1 }))
        ]

        by_device : Option Bytes × h.State → Result (Unit {0}) × Repo h
        by_device out = elim out.0 [
          | some k ↦ (ok tt, with_dek k (record (locked s) { disk = out.1 }))
          | none ↦
              by_passphrase
                (unlock_passphrase h kdf (some (pure passphrase)) (only_slot salt wrapped) out.1)
        ]

        by_encryption : Option Encryption → Result (Unit {0}) × Repo h
        by_encryption e = elim e [
          | none ↦ (err encryption_not_initialized, locked s)
          | some enc ↦
              let (found, d) = unlock_fido2 h kdf device enc.kek_slots s.disk in
              elim found [
                | some k ↦ (ok tt, with_dek k (record (locked s) { disk = d }))
                | none ↦
                    let (r, d') =
                      unlock_passphrase h kdf (some (pure passphrase)) enc.kek_slots d in
                    elim r [
                      | err x ↦ (err x, record (locked s) { disk = d' })
                      | ok k ↦ (ok tt, with_dek k (record (locked s) { disk = d' }))
                    ]
              ]
        ]

    -- What `init_keys` leaves, step by step
    made :
        (passphrase : Text) (s s' : Repo h)
        → init_keys h kdf passphrase s ≡ (ok tt, s')
        → (dek : Bytes) × (salt : Bytes) × (wrapped : Bytes) × (d : h.State) × (d' : h.State)
          × (seal_random h (derive_kek kdf passphrase salt 3 65536 4) dek d ≡ (ok wrapped, d'))
          × (s'.garden.dek ≡ some dek)
          × (s'.garden.manifest.encryption
              ≡ some (record {
                algorithm = codes "xchacha20-poly1305";
                kek_slots = only_slot salt wrapped;
              }))
          × (e : h.State) × (save h s'.garden.manifest s'.garden.manifest_path e ≡ (ok tt, s'.disk))
    unfolding init_keys save_manifest
    made passphrase s s' ran =
        let (dek, s₁, _, e₁) = >>=-eq-ok (on_disk (h.rand dek_size)) _ s tt s' ran in
        let (salt, s₂, _, e₂) = >>=-eq-ok (on_disk (h.rand salt_size)) _ s₁ tt s' e₁ in
        let (wrapped, s₃, sealed, e₃) =
          >>=-eq-ok (on_disk (seal_random h (derive_kek kdf passphrase salt 3 65536 4) dek)) _ s₂ tt
            s' e₂ in
        let garden : (with_dek dek (
              with_encryption
                (record {
                  algorithm = codes "xchacha20-poly1305";
                  kek_slots = only_slot salt wrapped;
                })
                s₃)).garden
            ≡ s'.garden =
          ap (λ (r : Result (Unit {0}) × Repo h). r.1.garden) e₃ in
        (
          dek,
          salt,
          wrapped,
          s₂.disk,
          s₃.disk,
          ap (λ (r : Result Bytes × Repo h). (r.0, r.1.disk)) sealed,
          ap (λ (g : Garden). g.dek) (sym garden),
          ap (λ (g : Garden). g.manifest.encryption) (sym garden),
          s₃.disk,
          subst (λ (g : Garden). save h g.manifest g.manifest_path s₃.disk ≡ (ok tt, s'.disk))
              garden (ap (λ (r : Result (Unit {0}) × Repo h). (r.0, r.1.disk)) e₃),
        )

    -- What `EncryptInit` saves is what is read.
    saved_back :
        (laws : DiskLaws h) (m : Manifest) (path : Text) (d d' : h.State) (out : Result Bytes)
        → h.marshal m ≡ out
        → (let r : Result (Unit {0}) × h.State = elim out [
          | ok bytes ↦ write_atomically h (base path ++ codes ".tmp.*") path bytes d
          | err e ↦ (err e, d)
        ] in
            r)
          ≡ (ok tt, d')
        → (bytes : Bytes) × (h.marshal m ≡ ok bytes) × (h.read_file path d' ≡ ok bytes)
    saved_back laws m path d d' (ok bytes) packed e = (
      bytes,
      packed,
      write_atomically-read h laws (base path ++ codes ".tmp.*") path bytes d d' e,
    )
    saved_back laws m path d d' (err x) packed e = cc (ap (λ r. r.0) e)

    load-save :
        (laws : DiskLaws h) (m : Manifest) (path : Text) (d d' : h.State)
        → ((bytes : Bytes) → h.marshal m ≡ ok bytes → h.unmarshal bytes ≡ ok m)
        → save h m path d ≡ (ok tt, d')
        → load h path d' ≡ ok m
    unfolding save load
    load-save laws m path d d' unpacks e =
        let (bytes, packed, there) = saved_back laws m path d d' (h.marshal m) refl e in
        rw there (unpacks bytes packed)

    loaded :
        (g : Garden) (d : h.State) (s₂ : Repo h) (d₂ : h.State) (m : Manifest)
        → abs h.cwd g.root ≡ ok g.root
        → g.manifest_path ≡ join g.root (codes "manifest.yaml")
        → load h g.manifest_path d ≡ ok m
        → open_repo h g.root d ≡ (ok s₂, d₂)
        → s₂.garden ≡ new_garden m g.root
    unfolding open_repo
    loaded g d s₂ d₂ m there at read e =
        opened (Store.new h g.root d) (rw (there, found, open_repo) at e)
      where
        found : load h (join g.root (codes "manifest.yaml")) d ≡ ok m
        found = ap (λ p. load h p d) (sym at) ∙ read

        opened :
            (out : Result (Unit {0}) × h.State)
            → (let r : Result (Repo h) × h.State = elim out.0 [
              | err x ↦ (err x, out.1)
              | ok _ ↦ (ok (record { garden = new_garden m g.root; disk = out.1 }), out.1)
            ] in
                r)
              ≡ (ok s₂, d₂)
            → s₂.garden ≡ new_garden m g.root
        opened (ok _, d') q =
            ap
              (λ (r : Result (Repo h) × h.State). elim r.0 as (λ _. Garden) [
                | ok x ↦ x.garden
                | err _ ↦ s₂.garden
              ])
              (sym q)
        opened (err x, d') q = cc (ap (λ (r : Result (Repo h) × h.State). r.0) q)

    -- On a disk with the laws of `DiskLaws`, where base64 and the cipher undo themselves, and where
    -- YAML reads back the manifest that it wrote: for a repository with an absolute clean root and its
    -- manifest in manifest.yaml, after an `EncryptInit` that succeeds, a garden that `Open` makes anew
    -- of the disk has the manifest with the encryption and no key, and is unlocked by the same
    -- passphrase to the key that `EncryptInit` made, whatever FIDO2 device is there.
    pub unlock_dek-encrypt_init :
        (disk_laws : DiskLaws h) (laws : CipherLaws h) (passphrase : Text)
        (device : Option (Device h)) (s s' s₂ : Repo h) (d₂ : h.State)
        → encrypt_init h kdf passphrase s ≡ (ok tt, s')
        → abs h.cwd s'.garden.root ≡ ok s'.garden.root
        → s'.garden.manifest_path ≡ join s'.garden.root (codes "manifest.yaml")
        → ((bytes : Bytes)
            → h.marshal s'.garden.manifest ≡ ok bytes
            → h.unmarshal bytes ≡ ok s'.garden.manifest)
        → open_repo h s'.garden.root s'.disk ≡ (ok s₂, d₂)
        → (s₂.garden.manifest ≡ s'.garden.manifest)
          × (s₂.garden.dek ≡ none)
          × (dek : Bytes) × (s'.garden.dek ≡ some dek)
          × (unlock_dek h kdf (some (pure passphrase)) device s₂ ≡ (ok tt, with_dek dek s₂))
    unfolding encrypt_init
    unlock_dek-encrypt_init disk_laws laws passphrase device s s' s₂ d₂ ran there at unpacks anew =
        let (dek, salt, wrapped, d, d', sealed, keyed, encrypted, e, saved) =
          made passphrase s s' (fresh s.garden.manifest.encryption ran) in
        let same =
          loaded s'.garden s'.disk s₂ d₂ s'.garden.manifest there at
            (load-save disk_laws s'.garden.manifest s'.garden.manifest_path e s'.disk unpacks saved)
            anew in
        let manifest = ap (λ (g : Garden). g.manifest) same in
        let closed = ap (λ (g : Garden). g.dek) same in
        (
          manifest,
          closed,
          dek,
          keyed,
          ap
                (λ (k : Option Bytes).
                  unlock_dek h kdf (some (pure passphrase)) device
                    (record s₂ { garden = record s₂.garden { dek = k } }))
                closed
              ∙ reopened passphrase device salt wrapped dek (codes "xchacha20-poly1305")
                  (with_dek dek s₂) refl (ap (λ (m : Manifest). m.encryption) manifest ∙ encrypted)
                  (open_sealed-seal_random h laws (derive_kek kdf passphrase salt 3 65536 4) dek
                    wrapped d d' sealed),
        )
      where
        fresh :
            (e : Option Encryption)
            → (let r : Result (Unit {0}) × Repo h = elim e [
              | some _ ↦ (err encryption_initialized, s)
              | none ↦ init_keys h kdf passphrase s
            ] in
                r)
              ≡ (ok tt, s')
            → init_keys h kdf passphrase s ≡ (ok tt, s')
        fresh none e = e
        fresh (some enc) e = cc (ap (λ (r : Result (Unit {0}) × Repo h). r.0) e)
