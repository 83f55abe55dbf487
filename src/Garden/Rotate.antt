-- ===== src/Garden/Rotate.antt =====
-- garden/encrypt.go: RotateDEK. The order of the list of slots stands for that of the `range` over the
-- map.
pub mod Dropping
use sgard.Base.{
  ◌||◌, not, Option, none, some, [], ◌∷◌, Text, Bytes, ◌==◌, if◌then◌else◌, Result, ok, err, Exec,
  update_each, dek_locked, encryption_not_initialized, unknown_slot_type,
}
use sgard.Manifest.{Entry, KekSlot, Encryption}
use sgard.Store
use sgard.Host.{Host}
use sgard.Garden.{Repo, files, save_manifest, with_files}
use sgard.Garden.Crypt.{seal_random, encrypt_blob, decrypt_blob}
use sgard.Garden.Slots.{Kdf, Slots, dek_size, passphrase_slot, with_encryption, with_dek}
use sgard.Garden.Unlock.{Device, fido2, fido2_kek, passphrase_kek}

module _ (h : Host) (root : Text) where
  -- The key in `g.dek`, which the loop changes to and fro, and the disk
  abbrev pub Keyed : Type 0
  Keyed = Bytes × h.State

  -- The rest of the body of the first loop, with the plaintext
  unfoldable pub encrypt_again : Bytes → Entry → Bytes → h.State → Result (Unit {0}) × Entry × Keyed
  encrypt_again new e plaintext d =
      let (sealed, d') = encrypt_blob h (some new) plaintext d in
      elim sealed [
        | err x ↦ (err x, e, (new, d'))
        | ok ciphertext ↦
            let (wrote, d'') = Store.write h root ciphertext d' in
            elim wrote [
              | err x ↦ (err x, e, (new, d''))
              | ok hash ↦ (ok tt, record e { hash = hash }, (new, d''))
            ]
      ]

  -- The body of the first loop
  unfoldable pub rotate_entry : Bytes → Bytes → Entry → Keyed → Result (Unit {0}) × Entry × Keyed
  rotate_entry old new e (dek, d) =
      if not e.encrypted || (e.hash == [])
      then (ok tt, e, (dek, d))
      else (elim (Store.read h root e.hash d) [
        | err x ↦ (err x, e, (dek, d))
        | ok ciphertext ↦ elim (decrypt_blob h (some old) ciphertext) [
          | err x ↦ (err x, e, (old, d))
          | ok plaintext ↦ encrypt_again new e plaintext d
        ]
      ])

module _ (h : Host) (kdf : Kdf) (prompt : Option (Exec h.State Text))
    (device : Option (Device h)) where
  -- The key of a slot; none where the slot is dropped
  unfoldable pub slot_kek : KekSlot → Exec h.State (Option Bytes)
  slot_kek slot s =
      if slot.type == passphrase_slot
      then (let (r, s') = passphrase_kek h kdf prompt slot s in
          elim r [ err x ↦ (err x, s') | ok kek ↦ (ok (some kek), s') ])
      else if slot.type == fido2
      then (elim device [
        | none ↦ (ok none, s)
        | some d ↦
            let (kek, s') = fido2_kek h kdf d slot s in
            if d.available then (ok kek, s') else (ok none, s)
      ])
      else (err (unknown_slot_type slot.type), s)

  -- The body of the second loop: the slot with the new key, or none where it is dropped
  unfoldable pub wrap_again : Bytes → KekSlot → Exec h.State (Option KekSlot)
  wrap_again new slot s =
      let (r, s') = slot_kek slot s in
      elim r [
        | err x ↦ (err x, s')
        | ok found ↦ elim found [
          | none ↦ (ok none, s')
          | some kek ↦
              let (wrapped, s'') = seal_random h kek new s' in
              elim wrapped [
                | err x ↦ (err x, s'')
                | ok w ↦ (ok (some (record slot { wrapped_dek = kdf.encode w })), s'')
              ]
        ]
      ]

  -- What a round of the second loop leaves of the slots
  abbrev pub kept : Text → Option KekSlot → Slots → Slots
  kept name none slots = slots
  kept name (some slot) slots = (name, slot) ∷ slots

  -- The second loop: what it changed before an error stays changed.
  unfoldable pub wrap_slots : Bytes → Slots → h.State → Result (Unit {0}) × Slots × h.State
  wrap_slots new [] s = (ok tt, [], s)
  wrap_slots new ((name, slot) ∷ slots) s =
      let (r, s') = wrap_again new slot s in
      elim r [
        | err x ↦ (err x, (name, slot) ∷ slots, s')
        | ok left ↦ let (r', rest, s'') = wrap_slots new slots s' in (r', kept name left rest, s'')
      ]

  -- `RotateDEK`, from its second loop on
  unfoldable pub rotate_slots : Bytes → Encryption → Exec (Repo h) (Unit {0})
  rotate_slots new enc s =
      let (r, slots, d) = wrap_slots new enc.kek_slots s.disk in
      let s' = with_encryption (record enc { kek_slots = slots }) (record s { disk = d }) in
      elim r [ err x ↦ (err x, s') | ok _ ↦ save_manifest h (with_dek new s') ]

  -- `RotateDEK`, with the new key
  unfoldable pub rotate_with : Bytes → Bytes → Encryption → Exec (Repo h) (Unit {0})
  rotate_with old new enc s =
      let (r, es, (dek, d)) =
        update_each (rotate_entry h s.garden.root old new) (files s) (old, s.disk) in
      let s' = with_dek dek (with_files es (record s { disk = d })) in
      elim r [ err x ↦ (err x, s') | ok _ ↦ rotate_slots new enc s' ]

  -- `RotateDEK`
  unfoldable pub rotate_dek : Exec (Repo h) (Unit {0})
  rotate_dek s = elim s.garden.dek [
    | none ↦ (err dek_locked, s)
    | some old ↦ elim s.garden.manifest.encryption [
      | none ↦ (err encryption_not_initialized, s)
      | some enc ↦
          let (drawn, d) = h.rand dek_size s.disk in
          elim drawn [
            | err x ↦ (err x, record s { disk = d })
            | ok new ↦ rotate_with old new enc (record s { disk = d })
          ]
    ]
  ]
