-- ===== src/Garden/Unique/Keys.antt =====
-- The methods that change the keys and their slots track no path twice, and `RotateDEK` neither.
use sgard.Base.{
  ◌≡◌, refl, Option, List, [], ◌∷◌, Text, Bytes, Exec, update_each_pairs, AllPairs, bind_keeps,
  arith,
}
use sgard.Manifest.{Manifest, Entry, Encryption, KekSlot}
use sgard.Host.{Host}
use sgard.Garden.{Repo, files, replace_manifest}
use sgard.Garden.Crypt.{seal_random}
use sgard.Garden.Slots.{
  Kdf, init_keys, encrypt_init, change_slot, change_passphrase, remove_slot, rewrap, on_disk,
}
use sgard.Garden.Unlock.{Device, unlock_dek, add_fido2_slot, make_fido2_slot, added_slot}
use sgard.Garden.Rotate.{encrypt_again, rotate_entry, rotate_slots, rotate_with, rotate_dek, Keyed}
use sgard.Garden.Unique.{IsUnique, NodupPaths, paths}
use sgard.Garden.Unique.Adding.{save_manifest-IsUnique}
use sgard.Garden.Maintain.{prune}

module _ (h : Host) where
  on_disk-IsUnique :
      {A : Type 0} (step : Exec h.State A) (s : Repo h) → IsUnique s → IsUnique (on_disk step s).1
  on_disk-IsUnique step s u = u

  pub remove_slot-IsUnique :
      (name : Text) (s : Repo h) → IsUnique s → IsUnique (remove_slot h name s).1
  unfolding remove_slot
  remove_slot-IsUnique name s u = grind (arith, save_manifest-IsUnique)

  pub prune-IsUnique : (s : Repo h) → IsUnique s → IsUnique (prune h s).2
  unfolding prune
  prune-IsUnique s u = grind arith

  module _ (kdf : Kdf) where
    init_keys-IsUnique :
        (passphrase : Text) (s : Repo h) → IsUnique s → IsUnique (init_keys h kdf passphrase s).1
    unfolding init_keys
    init_keys-IsUnique passphrase s u = bind_keeps IsUnique (on_disk (h.rand _)) _ s u λ dek s₁ u₁.
        bind_keeps IsUnique (on_disk (h.rand _)) _ s₁ u₁ λ salt s₂ u₂.
          bind_keeps IsUnique (on_disk (seal_random h _ dek)) _ s₂ u₂
            λ wrapped s₃ u₃. save_manifest-IsUnique h _ u₃

    pub encrypt_init-IsUnique :
        (passphrase : Text) (s : Repo h) → IsUnique s → IsUnique (encrypt_init h kdf passphrase s).1
    unfolding encrypt_init
    encrypt_init-IsUnique passphrase s u = grind (arith, init_keys-IsUnique)

    change_slot-IsUnique :
        (dek : Bytes) (passphrase : Text) (enc : Encryption) (slot : KekSlot) (s : Repo h)
        → IsUnique s
        → IsUnique (change_slot h kdf dek passphrase enc slot s).1
    unfolding change_slot
    change_slot-IsUnique dek passphrase enc slot s u =
        bind_keeps IsUnique (on_disk (rewrap h kdf dek passphrase slot)) _ s u
          λ new s₁ u₁. save_manifest-IsUnique h _ u₁

    pub change_passphrase-IsUnique :
        (passphrase : Text) (s : Repo h)
        → IsUnique s
        → IsUnique (change_passphrase h kdf passphrase s).1
    unfolding change_passphrase
    change_passphrase-IsUnique passphrase s u = grind (arith, change_slot-IsUnique)

    pub unlock_dek-IsUnique :
        (prompt : Option (Exec h.State Text)) (device : Option (Device h)) (s : Repo h)
        → IsUnique s
        → IsUnique (unlock_dek h kdf prompt device s).1
    unfolding unlock_dek
    unlock_dek-IsUnique prompt device s u = grind arith

    slot_added-IsUnique :
        (device : Device h) (dek : Bytes) (enc : Encryption) (name : Text) (s : Repo h)
        → IsUnique s
        → IsUnique (added_slot h kdf device dek enc name s).1
    unfolding added_slot
    slot_added-IsUnique device dek enc name s u =
        bind_keeps IsUnique (on_disk (make_fido2_slot h kdf device dek)) _ s u
          λ slot s₁ u₁. save_manifest-IsUnique h _ u₁

    pub add_fido2_slot-IsUnique :
        (device : Device h) (label : Text) (s : Repo h)
        → IsUnique s
        → IsUnique (add_fido2_slot h kdf device label s).1
    unfolding add_fido2_slot
    add_fido2_slot-IsUnique device label s u = grind (arith, slot_added-IsUnique)

  same_paths :
      (xs ys : List Entry) → AllPairs (λ (x y : Entry). y.path ≡ x.path) xs ys → paths ys ≡ paths xs
  same_paths [] [] p = refl
  same_paths [] (y ∷ ys) p = absurd p
  same_paths (x ∷ xs) [] p = absurd p
  same_paths (x ∷ xs) (y ∷ ys) (k, p) = cc (k, same_paths xs ys p)

  encrypt_again-path :
      (root : Text) (new : Bytes) (e : Entry) (plaintext : Bytes) (d : h.State)
      → (encrypt_again h root new e plaintext d).1.path ≡ e.path
  unfolding encrypt_again
  encrypt_again-path root new e plaintext d = grind arith

  rotate_entry-path :
      (root : Text) (old new : Bytes) (e : Entry) (k : Keyed h root)
      → (rotate_entry h root old new e k).1.path ≡ e.path
  unfolding rotate_entry
  rotate_entry-path root old new e (dek, d) = grind (arith, encrypt_again-path)

  module _ (kdf : Kdf) (prompt : Option (Exec h.State Text)) (device : Option (Device h)) where
    rotate_slots-IsUnique :
        (new : Bytes) (enc : Encryption) (s : Repo h)
        → IsUnique s
        → IsUnique (rotate_slots h kdf prompt device new enc s).1
    unfolding rotate_slots
    rotate_slots-IsUnique new enc s u = grind (arith, save_manifest-IsUnique)

    rotate_with-IsUnique :
        (old new : Bytes) (enc : Encryption) (s : Repo h)
        → IsUnique s
        → IsUnique (rotate_with h kdf prompt device old new enc s).1
    unfolding rotate_with
    rotate_with-IsUnique old new enc s u =
        let same = same_paths (files s) _ (
          update_each_pairs (λ (x y : Entry). y.path ≡ x.path)
            (rotate_entry h s.garden.root old new) (λ x. refl)
            (rotate_entry-path s.garden.root old new) (files s) (old, s.disk)) in
        grind (arith, same, rotate_slots-IsUnique)

    pub rotate_dek-IsUnique :
        (s : Repo h) → IsUnique s → IsUnique (rotate_dek h kdf prompt device s).1
    unfolding rotate_dek
    rotate_dek-IsUnique s u = grind (arith, rotate_with-IsUnique)

  -- A manifest that is put in place is the one that was given, or the one that was there.
  pub replace_manifest-IsUnique :
      (m : Manifest) (s : Repo h)
      → NodupPaths m.files
      → IsUnique s
      → IsUnique (replace_manifest h m s).1
  unfolding replace_manifest
  replace_manifest-IsUnique m s given u = grind arith
