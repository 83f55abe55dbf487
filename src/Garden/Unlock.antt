-- ===== src/Garden/Unlock.antt =====
-- garden/encrypt.go and garden/encrypt_fido2.go: UnlockDEK, the FIDO2 slots, and RotateDEK. A device
-- and the prompt for the passphrase are parameters. The order of the list of slots stands for that of
-- the `range` over the map.
pub mod Reopening
use sgard.Base.{
  ℕ, Bool, true, false, ◌||◌, ◌&&◌, not, Option, none, some, List, [], ◌∷◌, ◌++◌, Text, Bytes,
  codes, ◌==◌, has_prefix, ltb, eqb, length, take, if◌then◌else◌, Result, ok, err, Error, Exec,
  ◌>>=◌, ◌>>◌, pure, lift, update_each, dek_locked, encryption_not_initialized, prompt_missing,
  no_usable_slot, slot_exists, unknown_slot_type, device_missing, kek_too_short,
}
use sgard.Manifest.{Manifest, Entry, KekSlot, Encryption}
use sgard.Store
use sgard.Host.{Host}
use sgard.Garden.{Garden, Repo, files, with_files, save_manifest}
use sgard.Garden.Crypt.{seal_random, open_sealed, encrypt_blob, decrypt_blob}
use sgard.Garden.Slots.{
  Kdf, Slots, dek_size, salt_size, derive_kek, find_slot, passphrase_slot, with_encryption,
  with_dek, on_disk,
}

-- `FIDO2Device`
pub record Device (h : Host) : Type 0 where
  pub register : Bytes → Exec h.State (Bytes × Bytes)
  pub derive : Bytes → Bytes → Exec h.State Bytes
  pub available : Bool
  pub matches_credential : Bytes → Bool

abbrev pub fido2 : Text
fido2 = codes "fido2"

abbrev pub fido2_prefix : Text
fido2_prefix = codes "fido2/"

-- A text up to its first dot
unfoldable pub before_dot : Text → Text
before_dot [] = []
before_dot (c ∷ s) = let rest = before_dot s in if eqb c b'.' then [] else c ∷ rest

-- `defaultFIDO2Label`
unfoldable pub default_fido2_label : Result Text → Text
default_fido2_label (err _) = codes "fido2/device"
default_fido2_label (ok host) = fido2_prefix ++ before_dot host

-- The label of a slot, as `AddFIDO2Slot` makes it of what it is given
unfoldable pub slot_label : Result Text → Text → Text
slot_label hostname label =
    let named = if label == [] then default_fido2_label hostname else label in
    if has_prefix named fido2_prefix then named else fido2_prefix ++ named

module _ (h : Host) (kdf : Kdf) where
  -- The key that the device derives for a slot; none where `unlockFIDO2` and `RotateDEK` give it up
  unfoldable pub fido2_kek : Device h → KekSlot → h.State → Option Bytes × h.State
  fido2_kek device slot s = elim (kdf.decode slot.credential_id) [
    | err _ ↦ (none, s)
    | ok credential ↦
        if device.matches_credential credential
        then (elim (kdf.decode slot.salt) [
          | err _ ↦ (none, s)
          | ok salt ↦
              let (r, s') = device.derive credential salt s in
              elim r [
                | err _ ↦ (none, s')
                | ok kek ↦
                    ((if ltb (length kek) dek_size then none else some (take dek_size kek)), s')
              ]
        ])
        else (none, s)
  ]

  -- The DEK of a slot under a key
  unfoldable pub unwrap_slot : Bytes → KekSlot → Result Bytes
  unwrap_slot kek slot = elim (kdf.decode slot.wrapped_dek) [
    | err x ↦ err x
    | ok wrapped ↦ open_sealed h kek wrapped
  ]

  -- The body of the loop of `unlockFIDO2`
  unfoldable pub try_slot : Device h → Text → KekSlot → h.State → Option Bytes × h.State
  try_slot device name slot s =
      if slot.type == fido2 && has_prefix name fido2_prefix
      then (let (kek, s') = fido2_kek device slot s in
          elim kek [
            | none ↦ (none, s')
            | some k ↦ elim (unwrap_slot k slot) [ err _ ↦ (none, s') | ok dek ↦ (some dek, s') ]
          ])
      else (none, s)

  -- The loop of `unlockFIDO2`
  unfoldable pub try_slots : Device h → Slots → h.State → Option Bytes × h.State
  try_slots device [] s = (none, s)
  try_slots device ((name, slot) ∷ slots) s =
      let (found, s') = try_slot device name slot s in
      elim found [ some dek ↦ (some dek, s') | none ↦ try_slots device slots s' ]

  -- `unlockFIDO2`, where there is a device
  unfoldable pub unlock_fido2 : Option (Device h) → Slots → h.State → Option Bytes × h.State
  unlock_fido2 none slots s = (none, s)
  unlock_fido2 (some device) slots s =
      if device.available then try_slots device slots s else (none, s)

  -- The key of a passphrase slot, by the prompt
  unfoldable pub passphrase_kek : Option (Exec h.State Text) → KekSlot → Exec h.State Bytes
  passphrase_kek none slot = λ s. (err prompt_missing, s)
  passphrase_kek (some prompt) slot = do
    passphrase ← prompt
    salt ← lift (kdf.decode slot.salt)
    pure (derive_kek kdf passphrase salt slot.argon2_time slot.argon2_memory slot.argon2_threads)

  -- The second step of `UnlockDEK`
  unfoldable pub unlock_passphrase : Option (Exec h.State Text) → Slots → Exec h.State Bytes
  unlock_passphrase prompt slots s = elim (find_slot passphrase_slot slots) [
    | none ↦ (err no_usable_slot, s)
    | some slot ↦ (passphrase_kek prompt slot >>= λ kek. lift (unwrap_slot kek slot)) s
  ]

  -- `UnlockDEK`
  unfoldable pub unlock_dek :
      Option (Exec h.State Text) → Option (Device h) → Exec (Repo h) (Unit {0})
  unlock_dek prompt device s = elim s.garden.dek [
    | some _ ↦ (ok tt, s)
    | none ↦ elim s.garden.manifest.encryption [
      | none ↦ (err encryption_not_initialized, s)
      | some enc ↦
          let (found, d) = unlock_fido2 device enc.kek_slots s.disk in
          elim found [
            | some dek ↦ (ok tt, with_dek dek (record s { disk = d }))
            | none ↦
                let (r, d') = unlock_passphrase prompt enc.kek_slots d in
                elim r [
                  | err x ↦ (err x, record s { disk = d' })
                  | ok dek ↦ (ok tt, with_dek dek (record s { disk = d' }))
                ]
          ]
    ]
  ]

  -- The slot of `AddFIDO2Slot`
  unfoldable pub make_fido2_slot : Device h → Bytes → Exec h.State KekSlot
  make_fido2_slot device dek = do
    salt ← h.rand salt_size
    registered ← device.register salt
    kek ←
        (if ltb (length registered.1) dek_size
          then (λ s. (err kek_too_short, s))
          else pure (take dek_size registered.1))
    wrapped ← seal_random h kek dek
    pure (record {
      type = fido2;
      argon2_time = 0;
      argon2_memory = 0;
      argon2_threads = 0;
      credential_id = kdf.encode registered.0;
      salt = kdf.encode salt;
      wrapped_dek = kdf.encode wrapped;
    })

  -- `AddFIDO2Slot`, once there is no slot of the name
  unfoldable pub added_slot : Device h → Bytes → Encryption → Text → Exec (Repo h) (Unit {0})
  added_slot device dek enc name = do
    slot ← on_disk (make_fido2_slot device dek)
    (λ t. (
      ok tt,
      with_encryption (record enc { kek_slots = enc.kek_slots ++ ((name, slot) ∷ []) }) t,
    ))
    save_manifest h

  -- `AddFIDO2Slot`
  unfoldable pub add_fido2_slot : Device h → Text → Exec (Repo h) (Unit {0})
  add_fido2_slot device label s = elim s.garden.dek [
    | none ↦ (err dek_locked, s)
    | some dek ↦ elim s.garden.manifest.encryption [
      | none ↦ (err encryption_not_initialized, s)
      | some enc ↦
          if device.available
          then (let name = slot_label h.hostname label in
              elim (find_slot name enc.kek_slots) [
                | some _ ↦ (err (slot_exists name), s)
                | none ↦ added_slot device dek enc name s
              ])
          else (err device_missing, s)
    ]
  ]
