-- ===== src/Garden/Slots/Laws.antt =====
-- What the methods on key slots leave.
use sgard.Base.{
  ℕ, ◌≡◌, ◌≤◌, ◌+◌, Option, none, some, [], ◌∷◌, Text, Bytes, length, ok, arith, >>=-eq-ok, ap, ◌∙◌,
}
use Prim.Native.Nat.{min}
use sgard.Manifest.{KekSlot, Encryption}
use sgard.Host.{Host}
use sgard.Garden.{Repo, save_manifest}
use sgard.Garden.Crypt.{seal_random, open_sealed}
use sgard.Garden.Crypt.RoundTrip.{CipherLaws, open_sealed-seal_random}
use sgard.Garden.Slots.{Kdf, Slots, delete_slot, remove_slot, rewrap, derive_kek, salt_size}

length-delete_slot :
    (name : Text) (slots : Slots) → length slots ≤ length (delete_slot name slots) + 1
unfolding delete_slot
length-delete_slot name [] = omega arith
length-delete_slot name (s ∷ slots) = ground (arith, length-delete_slot name slots)

module _ (h : Host) where
  -- The number of key slots, none where there is no encryption
  abbrev pub slot_count : Option Encryption → ℕ
  slot_count none = 0
  slot_count (some enc) = length enc.kek_slots

  -- `RemoveSlot` takes one slot at most, and never the last one, whether it succeeds or fails.
  pub remove_slot-keeps :
      (name : Text) (s : Repo h)
      → let before = slot_count s.garden.manifest.encryption in
        let after = slot_count (remove_slot h name s).1.garden.manifest.encryption in
        (before ≤ after + 1) × (min before 1 ≤ after)
  unfolding remove_slot save_manifest
  remove_slot-keeps name s = grind (arith, length-delete_slot)

module _ (h : Host) (kdf : Kdf) (laws : CipherLaws h)
    (decodes : (bs : Bytes) → kdf.decode (kdf.encode bs) ≡ ok bs) where
  -- Where base64 and the cipher undo themselves: the slot that `ChangePassphrase` makes has the type
  -- of the old one, and opens under the new passphrase and its own cost parameters to the key.
  pub rewrap-opens :
      (dek : Bytes) (passphrase : Text) (slot new : KekSlot) (s s' : h.State)
      → rewrap h kdf dek passphrase slot s ≡ (ok new, s')
      → (new.type ≡ slot.type)
        × (salt : Bytes) × (kdf.decode new.salt ≡ ok salt)
        × (wrapped : Bytes) × (kdf.decode new.wrapped_dek ≡ ok wrapped)
        × (open_sealed h
              (derive_kek kdf passphrase salt new.argon2_time new.argon2_memory new.argon2_threads)
              wrapped
            ≡ ok dek)
  unfolding rewrap
  rewrap-opens dek passphrase slot new s s' ran =
      let (salt, t, _, e₁) = >>=-eq-ok (h.rand salt_size) _ s new s' ran in
      let (wrapped, u, made, e₂) =
        >>=-eq-ok
          (seal_random h
            (derive_kek kdf passphrase salt slot.argon2_time slot.argon2_memory slot.argon2_threads)
            dek)
          _ t new s' e₁ in
      let same : new ≡ record slot { salt = kdf.encode salt; wrapped_dek = kdf.encode wrapped } =
        ground (arith, e₂) in
      (
        ap (λ (x : KekSlot). x.type) same,
        salt,
        ap (λ (x : KekSlot). kdf.decode x.salt) same ∙ decodes salt,
        wrapped,
        ap (λ (x : KekSlot). kdf.decode x.wrapped_dek) same ∙ decodes wrapped,
        ap
              (λ (x : KekSlot).
                open_sealed h
                  (derive_kek kdf passphrase salt x.argon2_time x.argon2_memory x.argon2_threads)
                  wrapped)
              same
            ∙ open_sealed-seal_random h laws _ dek wrapped t u made,
      )
