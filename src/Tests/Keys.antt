-- ===== src/Tests/Keys.antt =====
-- Key slots, with simple stand-ins for Argon2id and base64.
use Prim.Native.Nat.{min}
use sgard.Garden.Rotate.{rotate_dek}
use sgard.Garden.Rotate.Dropping.{names, slots_of, rotate_dek_lem}
use sgard.Garden.Unlock.{unlock_dek}
use sgard.Garden.Unlock.Reopening.{unlock_dek-encrypt_init}
use sgard.Base.{
  some, none, pure, ◌≡◌, ◌≤◌, ◌+◌, refl, [], ◌∷◌, ◌++◌, Bytes, codes, Result, ok, err, ap, subst,
  Option,
}
use sgard.Manifest.{KekSlot}
use sgard.Memory.{memory, zeros}
use sgard.Garden.{Repo, new_garden, open_repo}
use sgard.Memory.Laws.{memory-DiskLaws}
use sgard.Paths.{abs}
use sgard.Garden.Crypt.{open_sealed}
use sgard.Garden.Slots.{
  Kdf, encrypt_init, first_slot, derive_kek, passphrase_slot, rewrap, remove_slot, with_encryption,
  with_dek,
}
use sgard.Garden.Slots.Laws.{slot_count, remove_slot-keeps, rewrap-opens}
use sgard.Tests.Data.{hello, disk, repo}
use sgard.Tests.Sealed.{key, memory-CipherLaws}

abbrev kdf : Kdf
kdf = record {
  argon2 = λ passphrase salt time mem threads n. zeros n;
  encode = λ bs. bs;
  decode = λ s. ok s;
}

abbrev slot : KekSlot
slot = first_slot (codes "s") (codes "w")

abbrev new : KekSlot
new = first_slot (zeros 16) (zeros 24 ++ (7 ∷ key))

rewrap_run : rewrap memory kdf key hello slot disk ≡ (ok new, disk)
unfolding rewrap sgard.Garden.Crypt.seal_random derive_kek
rewrap_run = refl

rewrap-opens_example :
    (new.type ≡ slot.type)
    × (salt : Bytes) × (kdf.decode new.salt ≡ ok salt)
    × (wrapped : Bytes) × (kdf.decode new.wrapped_dek ≡ ok wrapped)
    × (open_sealed memory
          (derive_kek kdf hello salt new.argon2_time new.argon2_memory new.argon2_threads)
          wrapped
        ≡ ok key)
rewrap-opens_example =
    rewrap-opens memory kdf memory-CipherLaws (λ bs. refl) key hello slot new disk disk rewrap_run

abbrev two_slots : Repo memory
two_slots =
    with_encryption
      (record {
        algorithm = [];
        kek_slots = (passphrase_slot, slot) ∷ (codes "fido2/x", slot) ∷ [];
      })
      (repo [] disk)

abbrev after : Repo memory
after = (remove_slot memory passphrase_slot two_slots).1

remove_slot-keeps_example :
    (2 ≤ slot_count memory after.garden.manifest.encryption + 1)
    × (min 2 1 ≤ slot_count memory after.garden.manifest.encryption)
remove_slot-keeps_example = remove_slot-keeps memory passphrase_slot two_slots

-- A repository whose encryption is set up on the disk
abbrev encrypted : Repo memory
encrypted = (encrypt_init memory kdf hello (repo [] disk)).1

encrypt_run : encrypt_init memory kdf hello (repo [] disk) ≡ (ok tt, encrypted)
unfolding encrypt_init sgard.Manifest.new_with_time sgard.Garden.Slots.init_keys
    sgard.Garden.Crypt.seal_random derive_kek sgard.Garden.save_manifest sgard.Manifest.Disk.save
    sgard.Host.Atomic.write_atomically sgard.Host.Atomic.move_into sgard.Host.Atomic.or_remove
    sgard.Host.Atomic.undone sgard.Memory.lookup sgard.Memory.insert sgard.Memory.erase
    sgard.Base.◌==◌ sgard.Paths.dir sgard.Paths.clean sgard.Paths.join sgard.Memory.stem
    sgard.Paths.base sgard.Paths.dir_part sgard.Paths.intercalate sgard.Paths.is_abs
    sgard.Paths.split
encrypt_run = refl

abbrev anew : Repo memory
anew = record { garden = new_garden encrypted.garden.manifest (codes "/r"); disk = encrypted.disk }

open_run : open_repo memory (codes "/r") encrypted.disk ≡ (ok anew, encrypted.disk)
unfolding open_repo abs sgard.Manifest.Disk.load sgard.Memory.lookup encrypt_init
    sgard.Manifest.new_with_time sgard.Garden.Slots.init_keys sgard.Garden.Crypt.seal_random
    derive_kek sgard.Garden.save_manifest sgard.Manifest.Disk.save
    sgard.Host.Atomic.write_atomically sgard.Host.Atomic.move_into sgard.Host.Atomic.or_remove
    sgard.Host.Atomic.undone sgard.Memory.insert sgard.Base.◌==◌ sgard.Paths.dir sgard.Paths.base
    sgard.Paths.clean sgard.Paths.dir_part sgard.Paths.intercalate sgard.Paths.is_abs
    sgard.Paths.join sgard.Paths.split sgard.Store.new sgard.Memory.erase sgard.Memory.stem
open_run = refl

rooted_run : abs memory.cwd (codes "/r") ≡ ok (codes "/r")
unfolding abs sgard.Paths.clean
rooted_run = refl

unpacked : memory.unmarshal (codes "manifest") ≡ ok encrypted.garden.manifest
unfolding encrypt_init sgard.Base.◌==◌ sgard.Manifest.new_with_time sgard.Garden.Slots.init_keys
    sgard.Garden.Crypt.seal_random derive_kek sgard.Garden.save_manifest
unpacked = refl

unpacks :
    (bytes : Bytes)
    → memory.marshal encrypted.garden.manifest ≡ ok bytes
    → memory.unmarshal bytes ≡ ok encrypted.garden.manifest
unpacks bytes e =
    subst (λ (b : Bytes). memory.unmarshal b ≡ ok encrypted.garden.manifest)
      (ap (λ (r : Result Bytes). elim r as (λ _. Bytes) [ ok b ↦ b | err _ ↦ bytes ]) e) unpacked

unlock_dek-encrypt_init_example :
    (anew.garden.manifest ≡ encrypted.garden.manifest)
    × (anew.garden.dek ≡ none)
    × (dek : Bytes) × (encrypted.garden.dek ≡ some dek)
    × (unlock_dek memory kdf (some (pure hello)) none anew ≡ (ok tt, with_dek dek anew))
unfolding encrypt_init sgard.Manifest.new_with_time sgard.Garden.Slots.init_keys
    sgard.Garden.Crypt.seal_random derive_kek sgard.Garden.save_manifest
unlock_dek-encrypt_init_example =
    unlock_dek-encrypt_init memory kdf (λ bs. refl) memory-DiskLaws memory-CipherLaws hello none
      (repo [] disk) encrypted anew encrypted.disk encrypt_run rooted_run refl unpacks open_run

-- A repository whose only slot is a FIDO2 slot, unlocked
abbrev one_device : Repo memory
one_device = with_dek key (
    with_encryption
      (record {
        algorithm = [];
        kek_slots = (codes "fido2/x", record slot { type = codes "fido2" }) ∷ [];
      })
      (repo [] disk))

abbrev rotated : Repo memory
rotated = (rotate_dek memory kdf none none one_device).1

rotate_run : rotate_dek memory kdf none none one_device ≡ (ok tt, rotated)
unfolding rotate_dek sgard.Garden.Rotate.rotate_with sgard.Base.update_each
    sgard.Garden.Rotate.rotate_slots sgard.Garden.Rotate.wrap_slots sgard.Garden.Rotate.wrap_again
    sgard.Garden.Rotate.slot_kek sgard.Manifest.new_with_time sgard.Garden.save_manifest
    sgard.Manifest.Disk.save sgard.Host.Atomic.write_atomically sgard.Host.Atomic.move_into
    sgard.Host.Atomic.or_remove sgard.Host.Atomic.undone sgard.Memory.lookup sgard.Memory.insert
    sgard.Memory.erase sgard.Base.◌==◌ sgard.Paths.dir sgard.Paths.clean sgard.Paths.join
    sgard.Memory.stem sgard.Paths.base sgard.Paths.dir_part sgard.Paths.intercalate
    sgard.Paths.is_abs sgard.Paths.split
rotate_run = refl

rotate_dek_lem_example : names (slots_of memory kdf none rotated.garden.manifest.encryption) ≡ []
unfolding sgard.Base.◌==◌
rotate_dek_lem_example = rotate_dek_lem memory kdf none one_device rotated rotate_run
