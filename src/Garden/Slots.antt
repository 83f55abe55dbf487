-- ===== src/Garden/Slots.antt =====
-- garden/encrypt.go: the key slots of a repository. Argon2id and base64 are parameters.
pub mod Laws
use sgard.Base.{
  ℕ, ◌%◌, ◌^◌, Bool, true, false, ◌||◌, Option, none, some, List, [], ◌∷◌, Text, Bytes, codes, ◌==◌,
  leb, length, if◌then◌else◌, Result, ok, err, Exec, ◌>>=◌, ◌>>◌, map, encryption_initialized,
  encryption_not_initialized, slot_not_found, last_slot, dek_locked,
}
use sgard.Manifest.{Manifest, Entry, KekSlot, Encryption}
use sgard.Host.{Host}
use sgard.Garden.{Garden, Repo, with_manifest, save_manifest}
use sgard.Garden.Crypt.{seal_random}

-- argon2.IDKey by passphrase, salt, time, memory, threads and size, and base64.StdEncoding
pub record Kdf : Type 0 where
  pub argon2 : Text → Bytes → ℕ → ℕ → ℕ → ℕ → Bytes
  pub encode : Bytes → Text
  pub decode : Text → Result Bytes

abbrev pub dek_size : ℕ
dek_size = 32

abbrev pub salt_size : ℕ
salt_size = 16

-- `derivePassphraseKEK`, with its conversions to uint32 and uint8
unfoldable pub derive_kek : Kdf → Text → Bytes → ℕ → ℕ → ℕ → Bytes
derive_kek kdf passphrase salt time memory threads =
    kdf.argon2 passphrase salt (time % 2 ^ 32) (memory % 2 ^ 32) (threads % 2 ^ 8) dek_size

abbrev pub passphrase_slot : Text
passphrase_slot = codes "passphrase"

abbrev pub Slots : Type 0
Slots = List (Text × KekSlot)

unfoldable pub find_slot : Text → Slots → Option KekSlot
find_slot name [] = none
find_slot name ((n, slot) ∷ slots) = if n == name then some slot else find_slot name slots

-- A slot changed through the pointer that the map holds
unfoldable pub put_slot : Text → KekSlot → Slots → Slots
put_slot name new [] = []
put_slot name new ((n, slot) ∷ slots) =
    if n == name then (n, new) ∷ slots else (n, slot) ∷ put_slot name new slots

-- `delete`; a map has a key once
unfoldable pub delete_slot : Text → Slots → Slots
delete_slot name [] = []
delete_slot name ((n, slot) ∷ slots) =
    if n == name then slots else (n, slot) ∷ delete_slot name slots

-- The slot that `EncryptInit` makes
abbrev pub first_slot : Text → Text → KekSlot
first_slot salt wrapped = record {
  type = passphrase_slot;
  argon2_time = 3;
  argon2_memory = 65536;
  argon2_threads = 4;
  credential_id = [];
  salt = salt;
  wrapped_dek = wrapped;
}

-- `NeedsDEK`
unfoldable pub needs_dek : List Entry → Bool
needs_dek [] = false
needs_dek (e ∷ es) = if e.encrypted then true else needs_dek es

module _ {h : Host} where
  abbrev pub with_encryption : Encryption → Repo h → Repo h
  with_encryption enc s = with_manifest (record s.garden.manifest { encryption = some enc }) s

  abbrev pub with_dek : Bytes → Repo h → Repo h
  with_dek dek s = record s { garden = record s.garden { dek = some dek } }

  -- A step on the disk alone
  abbrev pub on_disk : {A : Type 0} → Exec h.State A → Exec (Repo h) A
  on_disk step s = let (r, d) = step s.disk in (r, record s { disk = d })

  -- `HasEncryption`
  abbrev pub has_encryption : Repo h → Bool
  has_encryption s = elim s.garden.manifest.encryption [ none ↦ false | some _ ↦ true ]

  -- `ListSlots`: names and types
  unfoldable pub list_slots : Repo h → List (Text × Text)
  list_slots s = elim s.garden.manifest.encryption [
    | none ↦ []
    | some enc ↦ map (λ (p : Text × KekSlot). (p.0, p.1.type)) enc.kek_slots
  ]

module _ (h : Host) (kdf : Kdf) where
  -- `EncryptInit` once the manifest has no encryption
  unfoldable pub init_keys : Text → Exec (Repo h) (Unit {0})
  init_keys passphrase = do
    dek ← on_disk (h.rand dek_size)
    salt ← on_disk (h.rand salt_size)
    wrapped ← on_disk (seal_random h (derive_kek kdf passphrase salt 3 65536 4) dek)
    (λ s. (
      ok tt,
      with_dek dek (
          with_encryption
            (record {
              algorithm = codes "xchacha20-poly1305";
              kek_slots = (passphrase_slot, first_slot (kdf.encode salt) (kdf.encode wrapped)) ∷ [];
            })
            s),
    ))
    save_manifest h

  -- `EncryptInit`
  unfoldable pub encrypt_init : Text → Exec (Repo h) (Unit {0})
  encrypt_init passphrase s = elim s.garden.manifest.encryption [
    | some _ ↦ (err encryption_initialized, s)
    | none ↦ init_keys passphrase s
  ]

  -- A slot with the DEK wrapped under a new passphrase
  unfoldable pub rewrap : Bytes → Text → KekSlot → Exec h.State KekSlot
  rewrap dek passphrase slot = do
    salt ← h.rand salt_size
    wrapped ←
        seal_random h
          (derive_kek kdf passphrase salt slot.argon2_time slot.argon2_memory slot.argon2_threads)
          dek
    (λ s. (ok (record slot { salt = kdf.encode salt; wrapped_dek = kdf.encode wrapped }), s))

  -- `ChangePassphrase` with the DEK and the slot at hand
  unfoldable pub change_slot : Bytes → Text → Encryption → KekSlot → Exec (Repo h) (Unit {0})
  change_slot dek passphrase enc slot = do
    new ← on_disk (rewrap dek passphrase slot)
    (λ s. (
      ok tt,
      with_encryption (record enc { kek_slots = put_slot passphrase_slot new enc.kek_slots }) s,
    ))
    save_manifest h

  -- `ChangePassphrase`
  unfoldable pub change_passphrase : Text → Exec (Repo h) (Unit {0})
  change_passphrase passphrase s = elim s.garden.dek [
    | none ↦ (err dek_locked, s)
    | some dek ↦ elim s.garden.manifest.encryption [
      | none ↦ (err encryption_not_initialized, s)
      | some enc ↦ elim (find_slot passphrase_slot enc.kek_slots) [
        | none ↦ (err (slot_not_found passphrase_slot), s)
        | some slot ↦ change_slot dek passphrase enc slot s
      ]
    ]
  ]

module _ (h : Host) where
  -- `RemoveSlot`
  unfoldable pub remove_slot : Text → Exec (Repo h) (Unit {0})
  remove_slot name s = elim s.garden.manifest.encryption [
    | none ↦ (err encryption_not_initialized, s)
    | some enc ↦ elim (find_slot name enc.kek_slots) [
      | none ↦ (err (slot_not_found name), s)
      | some _ ↦
          if leb (length enc.kek_slots) 1
          then (err last_slot, s)
          else save_manifest h
              (with_encryption (record enc { kek_slots = delete_slot name enc.kek_slots }) s)
    ]
  ]
