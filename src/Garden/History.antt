-- ===== src/Garden/History.antt =====
-- The methods of a garden that change it, its manifest or its key, as one type of operations, and what
-- holds after any sequence of them. The methods that are left out read, or change the disk alone:
-- SaveTag, RemoveTag, WriteBlob and DeleteBlob.
use sgard.Base.{ℕ, ◌≡◌, Bool, Option, List, [], ◌∷◌, Text, ok, Exec, All, arith}
use sgard.Manifest.{Manifest}
use sgard.Host.{Host}
use sgard.Garden.{Repo, replace_manifest}
use sgard.Garden.Add.{AddOptions, add}
use sgard.Garden.Edit.{remove, set_locked, set_targeting, exclude, include}
use sgard.Garden.Checkpoint.{checkpoint}
use sgard.Garden.Mirror.{mirror_up, mirror_down}
use sgard.Garden.Restore.{Confirm, restore}
use sgard.Garden.Maintain.{prune}
use sgard.Garden.Slots.{Kdf, encrypt_init, change_passphrase, remove_slot}
use sgard.Garden.Unlock.{Device, unlock_dek, add_fido2_slot}
use sgard.Garden.Rotate.{rotate_dek}
use sgard.Garden.Unique.{IsUnique, NodupPaths}
use sgard.Garden.Unique.Adding.{add-IsUnique}
use sgard.Garden.Unique.Editing.{
  remove-IsUnique, set_locked-IsUnique, set_targeting-IsUnique, exclude-IsUnique, include-IsUnique,
  checkpoint-IsUnique,
}
use sgard.Garden.Unique.Mirroring.{mirror_up-IsUnique}
use sgard.Garden.Unique.Keys.{
  prune-IsUnique, replace_manifest-IsUnique, encrypt_init-IsUnique, unlock_dek-IsUnique,
  change_passphrase-IsUnique, remove_slot-IsUnique, add_fido2_slot-IsUnique, rotate_dek-IsUnique,
}

-- A call of a method, with its arguments and the time.
pub data Operation (h : Host) : Type 1 where
  adding : List Text → AddOptions → ℕ → Operation h
  removing : List Text → Operation h
  locking : List Text → Bool → Operation h
  targeting : Text → List Text → List Text → Bool → Operation h
  excluding : List Text → Operation h
  including : List Text → Operation h
  checkpointing : Text → ℕ → Operation h
  mirroring_up : List Text → ℕ → Operation h
  mirroring_down : List Text → Bool → Confirm → Operation h
  restoring : List Text → Bool → Confirm → Operation h
  pruning : Operation h
  replacing : Manifest → Operation h
  initializing : Kdf → Text → Operation h
  unlocking : Kdf → Option (Exec h.State Text) → Option (Device h) → Operation h
  changing : Kdf → Text → Operation h
  removing_slot : Text → Operation h
  adding_slot : Kdf → Device h → Text → Operation h
  rotating : Kdf → Option (Exec h.State Text) → Option (Device h) → Operation h

module _ (h : Host) where
  unfoldable pub run : Operation h → Exec (Repo h) (Unit {0})
  run (adding ps o now) = add h ps o now
  run (removing ps) = remove h ps
  run (locking ps locked) = set_locked h ps locked
  run (targeting p only never clear) = set_targeting h p only never clear
  run (excluding ps) = exclude h ps
  run (including ps) = include h ps
  run (checkpointing message now) = checkpoint h message now
  run (mirroring_up ps now) = mirror_up h ps now
  run (mirroring_down ps force confirm) = mirror_down h ps force confirm
  run (restoring ps force confirm) = restore h ps force confirm
  run pruning = λ s. let (r, _, s') = prune h s in (r, s')
  run (replacing m) = replace_manifest h m
  run (initializing kdf passphrase) = encrypt_init h kdf passphrase
  run (unlocking kdf prompt device) = unlock_dek h kdf prompt device
  run (changing kdf passphrase) = change_passphrase h kdf passphrase
  run (removing_slot name) = remove_slot h name
  run (adding_slot kdf device label) = add_fido2_slot h kdf device label
  run (rotating kdf prompt device) = rotate_dek h kdf prompt device

  -- One call after another, whether or not the calls fail.
  unfoldable pub run_all : List (Operation h) → Repo h → Repo h
  run_all [] s = s
  run_all (op ∷ ops) s = run_all ops (run op s).1

  -- A manifest that is put in place from outside tracks no path twice.
  unfoldable pub Allowed : Operation h → Type 0
  Allowed (replacing m) = NodupPaths m.files
  Allowed op = Unit

  module _ {home : Text} (known : h.home ≡ ok home) where
    run-IsUnique : (op : Operation h) (s : Repo h) → Allowed op → IsUnique s → IsUnique (run op s).1
    unfolding run restore mirror_down Allowed
    run-IsUnique (adding ps o now) s fine u = add-IsUnique h ps o now s u
    run-IsUnique (removing ps) s fine u = remove-IsUnique h ps s u
    run-IsUnique (locking ps locked) s fine u = set_locked-IsUnique h ps locked s u
    run-IsUnique (targeting p only never clear) s fine u =
        set_targeting-IsUnique h p only never clear s u
    run-IsUnique (excluding ps) s fine u = exclude-IsUnique h ps s u
    run-IsUnique (including ps) s fine u = include-IsUnique h ps s u
    run-IsUnique (checkpointing message now) s fine u = checkpoint-IsUnique h message now s u
    run-IsUnique (mirroring_up ps now) s fine u = mirror_up-IsUnique h known ps now s u
    run-IsUnique (mirroring_down ps force confirm) s fine u = u
    run-IsUnique (restoring ps force confirm) s fine u = grind arith
    run-IsUnique pruning s fine u = prune-IsUnique h s u
    run-IsUnique (replacing m) s fine u = replace_manifest-IsUnique h m s fine u
    run-IsUnique (initializing kdf passphrase) s fine u = encrypt_init-IsUnique h kdf passphrase s u
    run-IsUnique (unlocking kdf prompt device) s fine u =
        unlock_dek-IsUnique h kdf prompt device s u
    run-IsUnique (changing kdf passphrase) s fine u =
        change_passphrase-IsUnique h kdf passphrase s u
    run-IsUnique (removing_slot name) s fine u = remove_slot-IsUnique h name s u
    run-IsUnique (adding_slot kdf device label) s fine u =
        add_fido2_slot-IsUnique h kdf device label s u
    run-IsUnique (rotating kdf prompt device) s fine u = rotate_dek-IsUnique h kdf prompt device s u

    -- Where the home directory is known, no sequence of calls of the methods that `Operation` lists,
    -- failing ones included, makes a garden track a path twice that did not before, if the manifests
    -- that `ReplaceManifest` is given track no path twice.
    pub run_all-IsUnique :
        (ops : List (Operation h)) (s : Repo h)
        → All Allowed ops
        → IsUnique s
        → IsUnique (run_all ops s)
    unfolding run_all
    run_all-IsUnique [] s fine u = u
    run_all-IsUnique (op ∷ ops) s fine u =
        run_all-IsUnique ops (run op s).1 fine.1 (run-IsUnique op s fine.0 u)
