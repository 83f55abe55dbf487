-- ===== src/Garden/Rotate/Dropping.antt =====
-- Which key slots a rotation leaves where there is no FIDO2 device.
use sgard.Base.{
  subst, dek_locked, encryption_not_initialized, ◌≡◌, ◌∙◌, refl, ap, true, false, Bool-cases, inl,
  inr, Option, none, some, List, [], ◌∷◌, Text, Bytes, ◌==◌, map, if◌then◌else◌, Result, ok, err,
  Exec, update_each,
}
use sgard.Manifest.{Entry, KekSlot, Encryption}
use sgard.Manifest.Disk.{save}
use sgard.Host.{Host}
use sgard.Garden.{Repo, files, save_manifest, with_files}
use sgard.Garden.Crypt.{seal_random}
use sgard.Garden.Slots.{Kdf, Slots, dek_size, passphrase_slot, with_encryption, with_dek}
use sgard.Garden.Unlock.{fido2, passphrase_kek}
use sgard.Garden.Rotate.{
  slot_kek, wrap_again, kept, wrap_slots, rotate_slots, rotate_with, rotate_entry, rotate_dek,
}

-- The names of the slots that hold a passphrase
abbrev pub passphrase_names : Slots → List Text
passphrase_names [] = []
passphrase_names ((name, slot) ∷ slots) =
    if slot.type == passphrase_slot then name ∷ passphrase_names slots else passphrase_names slots

abbrev pub names : Slots → List Text
names slots = map (λ (p : Text × KekSlot). p.0) slots

module _ (h : Host) (kdf : Kdf) (prompt : Option (Exec h.State Text)) where
  -- Whether the key that was found fits the type of the slot
  Fits : KekSlot → Result (Option Bytes) → Type 0
  Fits slot (ok none) = (slot.type == passphrase_slot) ≡ false
  Fits slot (ok (some kek)) = (slot.type == passphrase_slot) ≡ true
  Fits slot (err x) = Unit

  Fits-passphrase :
      (slot : KekSlot) (out : Result Bytes × h.State)
      → (slot.type == passphrase_slot) ≡ true
      → Fits slot
          (let r : Result (Option Bytes) × h.State = elim out.0 [
            | err x ↦ (err x, out.1)
            | ok kek ↦ (ok (some kek), out.1)
          ] in
            r).0
  unfolding Fits
  Fits-passphrase slot (ok kek, s) e = e
  Fits-passphrase slot (err x, s) e = tt

  slot_kek-Fits : (slot : KekSlot) (s : h.State) → Fits slot (slot_kek h kdf prompt none slot s).0
  unfolding slot_kek Fits
  slot_kek-Fits slot s = elim (Bool-cases (slot.type == passphrase_slot)) [
    | inl phrase ↦ rw phrase (Fits-passphrase slot (passphrase_kek h kdf prompt slot s) phrase)
    | inr other ↦ elim (Bool-cases (slot.type == fido2)) [
      | inl device ↦ rw (other, device) other
      | inr unknown ↦ rw (other, unknown) tt
    ]
  ]

  -- What a round leaves in front of the rest
  Leaves : Text → KekSlot → Result (Option KekSlot) → Type 0
  Leaves name slot (ok left) =
      (rest : Slots)
      → names (kept h kdf prompt none name left rest)
        ≡ (if slot.type == passphrase_slot then name ∷ names rest else names rest)
  Leaves name slot (err x) = Unit

  Leaves-sealed :
      (name : Text) (slot : KekSlot) (out : Result Bytes × h.State)
      → (slot.type == passphrase_slot) ≡ true
      → Leaves name slot
          (let r : Result (Option KekSlot) × h.State = elim out.0 [
            | err x ↦ (err x, out.1)
            | ok w ↦ (ok (some (record slot { wrapped_dek = kdf.encode w })), out.1)
          ] in
            r).0
  unfolding Leaves
  Leaves-sealed name slot (ok w, s) e = λ rest. rw e refl
  Leaves-sealed name slot (err x, s) e = tt

  Leaves-found :
      (name : Text) (slot : KekSlot) (new : Bytes) (out : Result (Option Bytes) × h.State)
      → Fits slot out.0
      → Leaves name slot
          (let r : Result (Option KekSlot) × h.State = elim out.0 [
            | err x ↦ (err x, out.1)
            | ok found ↦ elim found [
              | none ↦ (ok none, out.1)
              | some kek ↦
                  let (wrapped, s'') = seal_random h kek new out.1 in
                  elim wrapped [
                    | err x ↦ (err x, s'')
                    | ok w ↦ (ok (some (record slot { wrapped_dek = kdf.encode w })), s'')
                  ]
            ]
          ] in
            r).0
  unfolding Leaves Fits
  Leaves-found name slot new (ok none, s) fits = λ rest. rw fits refl
  Leaves-found name slot new (ok (some kek), s) fits =
      Leaves-sealed name slot (seal_random h kek new s) fits
  Leaves-found name slot new (err x, s) fits = tt

  wrap_again-Leaves :
      (name : Text) (slot : KekSlot) (new : Bytes) (s : h.State)
      → Leaves name slot (wrap_again h kdf prompt none new slot s).0
  unfolding wrap_again
  wrap_again-Leaves name slot new s =
      Leaves-found name slot new (slot_kek h kdf prompt none slot s) (slot_kek-Fits slot s)

  -- A loop that ends without an error leaves the slots with a passphrase.
  Remains : Slots → Result (Unit {0}) × Slots × h.State → Type 0
  Remains slots (ok _, left, s) = names left ≡ passphrase_names slots
  Remains slots (err x, left, s) = Unit

  Remains-round :
      (name : Text) (slot : KekSlot) (slots : Slots) (left : Option KekSlot)
      (out : Result (Unit {0}) × Slots × h.State)
      → Leaves name slot (ok left)
      → Remains slots out
      → Remains ((name, slot) ∷ slots) (out.0, kept h kdf prompt none name left out.1, out.2)
  unfolding Leaves Remains
  Remains-round name slot slots left (ok _, rest, s) leaves remains =
      elim (Bool-cases (slot.type == passphrase_slot)) [
        | inl phrase ↦ rw phrase (leaves rest ∙ rw phrase (ap (λ ns. name ∷ ns) remains))
        | inr other ↦ rw other (leaves rest ∙ rw other remains)
      ]
  Remains-round name slot slots left (err x, rest, s) leaves remains = tt

  Remains-step :
      (name : Text) (slot : KekSlot) (slots : Slots) (new : Bytes)
      (out : Result (Option KekSlot) × h.State)
      → Leaves name slot out.0
      → ((t : h.State) → Remains slots (wrap_slots h kdf prompt none new slots t))
      → Remains ((name, slot) ∷ slots) (
          let r : Result (Unit {0}) × Slots × h.State = elim out.0 [
            | err x ↦ (err x, (name, slot) ∷ slots, out.1)
            | ok left ↦
                let (r', rest, s'') = wrap_slots h kdf prompt none new slots out.1 in
                (r', kept h kdf prompt none name left rest, s'')
          ] in
          r)
  unfolding Remains
  Remains-step name slot slots new (ok left, s) leaves more =
      Remains-round name slot slots left (wrap_slots h kdf prompt none new slots s) leaves (more s)
  Remains-step name slot slots new (err x, s) leaves more = tt

  wrap_slots-Remains :
      (new : Bytes) (slots : Slots) (s : h.State)
      → Remains slots (wrap_slots h kdf prompt none new slots s)
  unfolding wrap_slots Remains
  wrap_slots-Remains new [] s = refl
  wrap_slots-Remains new ((name, slot) ∷ slots) s =
      Remains-step name slot slots new (wrap_again h kdf prompt none new slot s)
        (wrap_again-Leaves name slot new s) (λ t. wrap_slots-Remains new slots t)

  abbrev pub slots_of : Option Encryption → Slots
  slots_of none = []
  slots_of (some enc) = enc.kek_slots

  -- Where the method succeeds, the slots that are left are those with a passphrase.
  Ends : Slots → Result (Unit {0}) × Repo h → Type 0
  Ends slots (ok _, s) = names (slots_of s.garden.manifest.encryption) ≡ passphrase_names slots
  Ends slots (err x, s) = Unit

  Ends-saved :
      (slots : Slots) (s : Repo h) (out : Result (Unit {0}) × h.State)
      → names (slots_of s.garden.manifest.encryption) ≡ passphrase_names slots
      → Ends slots (out.0, record s { disk = out.1 })
  unfolding Ends
  Ends-saved slots s (ok _, d) e = e
  Ends-saved slots s (err x, d) e = tt

  Ends-wrapped :
      (new : Bytes) (enc : Encryption) (s : Repo h) (out : Result (Unit {0}) × Slots × h.State)
      → Remains enc.kek_slots out
      → Ends enc.kek_slots (
          let s' : Repo h =
            with_encryption (record enc { kek_slots = out.1 }) (record s { disk = out.2 }) in
          let r : Result (Unit {0}) × Repo h = elim out.0 [
            | err x ↦ (err x, s')
            | ok _ ↦ save_manifest h (with_dek new s')
          ] in
          r)
  unfolding Remains Ends save_manifest
  Ends-wrapped new enc s (ok _, left, d) remains =
      let s' : Repo h =
        with_dek new (with_encryption (record enc { kek_slots = left }) (record s { disk = d })) in
      Ends-saved enc.kek_slots s' (save h s'.garden.manifest s'.garden.manifest_path s'.disk)
        remains
  Ends-wrapped new enc s (err x, left, d) remains = tt

  rotate_slots-Ends :
      (new : Bytes) (enc : Encryption) (s : Repo h)
      → Ends enc.kek_slots (rotate_slots h kdf prompt none new enc s)
  unfolding rotate_slots
  rotate_slots-Ends new enc s =
      Ends-wrapped new enc s (wrap_slots h kdf prompt none new enc.kek_slots s.disk)
        (wrap_slots-Remains new enc.kek_slots s.disk)

  Ends-entries :
      (new : Bytes) (enc : Encryption) (s : Repo h)
      (out : Result (Unit {0}) × List Entry × (Bytes × h.State))
      → Ends enc.kek_slots (
          let s' : Repo h = with_dek out.2.0 (with_files out.1 (record s { disk = out.2.1 })) in
          let r : Result (Unit {0}) × Repo h = elim out.0 [
            | err x ↦ (err x, s')
            | ok _ ↦ rotate_slots h kdf prompt none new enc s'
          ] in
          r)
  unfolding Ends
  Ends-entries new enc s (ok _, es, (dek, d)) =
      rotate_slots-Ends new enc (with_dek dek (with_files es (record s { disk = d })))
  Ends-entries new enc s (err x, es, (dek, d)) = tt

  rotate_with-Ends :
      (old new : Bytes) (enc : Encryption) (s : Repo h)
      → Ends enc.kek_slots (rotate_with h kdf prompt none old new enc s)
  unfolding rotate_with
  rotate_with-Ends old new enc s =
      Ends-entries new enc s
        (update_each (rotate_entry h s.garden.root old new) (files s) (old, s.disk))

  Ends-drawn :
      (old : Bytes) (enc : Encryption) (s : Repo h) (out : Result Bytes × h.State)
      → Ends enc.kek_slots (
          let r : Result (Unit {0}) × Repo h = elim out.0 [
            | err x ↦ (err x, record s { disk = out.1 })
            | ok new ↦ rotate_with h kdf prompt none old new enc (record s { disk = out.1 })
          ] in
          r)
  unfolding Ends
  Ends-drawn old enc s (ok new, d) = rotate_with-Ends old new enc (record s { disk = d })
  Ends-drawn old enc s (err x, d) = tt

  Ends-keyed :
      (s : Repo h) (dek : Option Bytes) (e : Option Encryption)
      → Ends (slots_of e) (
          let r : Result (Unit {0}) × Repo h = elim dek [
            | none ↦ (err dek_locked, s)
            | some old ↦ elim e [
              | none ↦ (err encryption_not_initialized, s)
              | some enc ↦
                  let (drawn, d) = h.rand dek_size s.disk in
                  elim drawn [
                    | err x ↦ (err x, record s { disk = d })
                    | ok new ↦ rotate_with h kdf prompt none old new enc (record s { disk = d })
                  ]
            ]
          ] in
          r)
  unfolding Ends
  Ends-keyed s none e = tt
  Ends-keyed s (some old) none = tt
  Ends-keyed s (some old) (some enc) = Ends-drawn old enc s (h.rand dek_size s.disk)

  rotate_dek-Ends :
      (s : Repo h) → Ends (slots_of s.garden.manifest.encryption) (rotate_dek h kdf prompt none s)
  unfolding rotate_dek
  rotate_dek-Ends s = Ends-keyed s s.garden.dek s.garden.manifest.encryption

  -- `RotateDEK` without a FIDO2 device, where it succeeds, leaves the slots that hold a passphrase, by
  -- their names and in their order, and no other: a repository that has none of these has no slot
  -- left, and its new key cannot be had any more.
  pub rotate_dek_lem :
      (s s' : Repo h)
      → rotate_dek h kdf prompt none s ≡ (ok tt, s')
      → names (slots_of s'.garden.manifest.encryption)
        ≡ passphrase_names (slots_of s.garden.manifest.encryption)
  unfolding Ends
  rotate_dek_lem s s' e = subst (Ends (slots_of s.garden.manifest.encryption)) e (rotate_dek-Ends s)
