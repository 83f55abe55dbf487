-- ===== src/Garden/Unique/Editing.antt =====
-- The methods that change the manifest alone, and `Checkpoint`, track no path twice.
use sgard.Base.{ℕ, ◌≡◌, refl, true, false, Bool, List, Text, arith}
use sgard.Manifest.{Entry}
use sgard.Host.{Host}
use sgard.Garden.{Repo, save_manifest, update_entry}
use sgard.Garden.Edit.{
  target_entry, remove_path, lock_path, exclude_path, remove, set_locked, set_targeting, exclude,
  include,
}
use sgard.Garden.Checkpoint.{checkpoint}
use sgard.Garden.Checkpoint.Keeps.{checkpoint-Keeps, paths-Keeps}
use sgard.Garden.Unique.{
  NodupPaths, paths-update_entry, drop_path-NodupPaths, remove_excluded-NodupPaths, IsUnique,
}
use sgard.Garden.Unique.Adding.{loop-IsUnique, save_manifest-IsUnique}

update-NodupPaths_locked :
    (p : Text) (locked : Bool) (es : List Entry)
    → NodupPaths es
    → NodupPaths (update_entry p (λ e. record e { locked = locked }) es)
update-NodupPaths_locked p locked es u =
    rw (paths-update_entry p (λ e. record e { locked = locked }) es (λ e. refl)) u

path-target_entry :
    (only never : List Text) (clear : Bool) (e : Entry)
    → (target_entry only never clear e).path ≡ e.path
unfolding target_entry
path-target_entry only never true e = refl
path-target_entry only never false e = ground arith

update-NodupPaths_target :
    (p : Text) (only never : List Text) (clear : Bool) (es : List Entry)
    → NodupPaths es
    → NodupPaths (update_entry p (target_entry only never clear) es)
update-NodupPaths_target p only never clear es u =
    rw
      (paths-update_entry p (target_entry only never clear) es (path-target_entry only never clear))
      u

module _ (h : Host) where
  pub remove_path-IsUnique : (p : Text) (s : Repo h) → IsUnique s → IsUnique (remove_path h p s).1
  unfolding remove_path
  remove_path-IsUnique p s u = grind (arith, drop_path-NodupPaths)

  pub exclude_path-IsUnique : (p : Text) (s : Repo h) → IsUnique s → IsUnique (exclude_path h p s).1
  unfolding exclude_path
  exclude_path-IsUnique p s u = grind (arith, remove_excluded-NodupPaths)

  pub lock_path-IsUnique :
      (locked : Bool) (p : Text) (s : Repo h) → IsUnique s → IsUnique (lock_path h locked p s).1
  unfolding lock_path
  lock_path-IsUnique locked p s u = grind (arith, update-NodupPaths_locked)

  pub set_targeting-IsUnique :
      (p : Text) (only never : List Text) (clear : Bool) (s : Repo h)
      → IsUnique s
      → IsUnique (set_targeting h p only never clear s).1
  unfolding set_targeting save_manifest
  set_targeting-IsUnique p only never clear s u = grind (arith, update-NodupPaths_target)

  pub include-IsUnique : (ps : List Text) (s : Repo h) → IsUnique s → IsUnique (include h ps s).1
  unfolding include save_manifest
  include-IsUnique ps s u = grind arith

  -- `Remove`, `Lock`, `Unlock` and `Exclude`
  pub remove-IsUnique : (ps : List Text) (s : Repo h) → IsUnique s → IsUnique (remove h ps s).1
  unfolding remove
  remove-IsUnique ps =
      loop-IsUnique h (remove_path h) (save_manifest h) remove_path-IsUnique
        (save_manifest-IsUnique h) ps

  pub set_locked-IsUnique :
      (ps : List Text) (locked : Bool) (s : Repo h)
      → IsUnique s
      → IsUnique (set_locked h ps locked s).1
  unfolding set_locked
  set_locked-IsUnique ps locked =
      loop-IsUnique h (lock_path h locked) (save_manifest h) (lock_path-IsUnique locked)
        (save_manifest-IsUnique h) ps

  pub exclude-IsUnique : (ps : List Text) (s : Repo h) → IsUnique s → IsUnique (exclude h ps s).1
  unfolding exclude
  exclude-IsUnique ps =
      loop-IsUnique h (exclude_path h) (save_manifest h) exclude_path-IsUnique
        (save_manifest-IsUnique h) ps

  pub checkpoint-IsUnique :
      (message : Text) (now : ℕ) (s : Repo h) → IsUnique s → IsUnique (checkpoint h message now s).1
  checkpoint-IsUnique message now s u =
      rw (paths-Keeps now _ _ (checkpoint-Keeps h message now s)) u
