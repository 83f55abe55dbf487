-- ===== src/Garden/Edit.antt =====
-- garden/remove.go, lock.go, targeting.go and exclude.go: the methods that change the manifest alone
pub mod Laws
pub mod Targeted
pub mod Excluding
use sgard.Base.{
  Bool, true, false, List, [], ◌∷◌, ◌++◌, Text, ◌==◌, if◌then◌else◌, Result, ok, err, and_then,
  Exec, ◌>>◌, for_each, not_tracking,
}
use sgard.Paths.{abs, to_tilde_path, expand_tilde_path}
use sgard.Manifest.{Manifest, Entry, is_excluded}
use sgard.Targeting.{is_nonempty}
use sgard.Host.{Host}
use sgard.Garden.{Repo, files, with_manifest, with_files, is_tracked, update_entry, save_manifest}
use sgard.Garden.Identity.{contains}

-- `if e.Path != tilded { filtered = append(filtered, e) }`
unfoldable pub drop_path : Text → List Entry → List Entry
drop_path tilded [] = []
drop_path tilded (e ∷ es) =
    let rest = drop_path tilded es in if e.path == tilded then rest else e ∷ rest

-- `removeExcludedEntries`
unfoldable pub remove_excluded_entries : Manifest → List Entry → List Entry
remove_excluded_entries m [] = []
remove_excluded_entries m (e ∷ es) =
    let rest = remove_excluded_entries m es in if is_excluded m e.path then rest else e ∷ rest

-- The change that `SetTargeting` makes to an entry
unfoldable pub target_entry : List Text → List Text → Bool → Entry → Entry
target_entry only never true e = record e { only = []; never = [] }
target_entry only never false e =
    let e' = if is_nonempty only then record e { only = only; never = [] } else e in
    if is_nonempty never then record e' { never = never; only = [] } else e'

-- The loop of `Include` that keeps the exclusions which are not named
unfoldable pub not_among : List Text → List Text → List Text
not_among named [] = []
not_among named (e ∷ es) =
    let rest = not_among named es in if contains named e then rest else e ∷ rest

module _ (h : Host) where
  -- filepath.Abs and toTildePath, with which each of these methods begins
  unfoldable pub resolve : Text → Result Text
  resolve p = and_then (abs h.cwd p) (λ path. ok (to_tilde_path h.home path))

  -- A loop, and the save behind it
  unfoldable pub then_save : Exec (Repo h) (Unit {0}) → Exec (Repo h) (Unit {0})
  then_save loop = loop >> save_manifest h

  unfoldable pub remove_path : Text → Exec (Repo h) (Unit {0})
  remove_path p s = elim (resolve p) [
    | err x ↦ (err x, s)
    | ok tilded ↦
        if is_tracked tilded (files s)
        then (ok tt, with_files (drop_path tilded (files s)) s)
        else (err (not_tracking tilded), s)
  ]

  -- `Remove`
  unfoldable pub remove : List Text → Exec (Repo h) (Unit {0})
  unfolding then_save
  remove paths = then_save (for_each paths remove_path)

  unfoldable pub lock_path : Bool → Text → Exec (Repo h) (Unit {0})
  lock_path locked p s = elim (resolve p) [
    | err x ↦ (err x, s)
    | ok tilded ↦
        if is_tracked tilded (files s)
        then (
          ok tt,
          with_files (update_entry tilded (λ e. record e { locked = locked }) (files s)) s,
        )
        else (err (not_tracking tilded), s)
  ]

  -- `setLocked`: `Lock` at true, `Unlock` at false
  unfoldable pub set_locked : List Text → Bool → Exec (Repo h) (Unit {0})
  unfolding then_save
  set_locked paths locked = then_save (for_each paths (lock_path locked))

  -- `SetTargeting`
  unfoldable pub set_targeting : Text → List Text → List Text → Bool → Exec (Repo h) (Unit {0})
  set_targeting path only never clear s = elim (expand_tilde_path h.home path) [
    | err x ↦ (err x, s)
    | ok expanded ↦
        let tilded = to_tilde_path h.home expanded in
        if is_tracked tilded (files s)
        then save_manifest h
            (with_files (update_entry tilded (target_entry only never clear) (files s)) s)
        else (err (not_tracking tilded), s)
  ]

  -- The body of the loop of `Exclude`. The map `existing` has the keys of `Exclude` at all times.
  unfoldable pub exclude_path : Text → Exec (Repo h) (Unit {0})
  exclude_path p s = elim (resolve p) [
    | err x ↦ (err x, s)
    | ok tilded ↦
        if contains s.garden.manifest.exclude tilded
        then (ok tt, s)
        else let m = record s.garden.manifest {
          exclude = s.garden.manifest.exclude ++ (tilded ∷ []);
        } in
          (ok tt, with_manifest (record m { files = remove_excluded_entries m m.files }) s)
  ]

  -- `Exclude`
  unfoldable pub exclude : List Text → Exec (Repo h) (Unit {0})
  unfolding then_save
  exclude paths = then_save (for_each paths exclude_path)

  -- The first loop of `Include`, which fills the map `remove`
  unfoldable pub resolve_all : List Text → Result (List Text)
  resolve_all [] = ok []
  resolve_all (p ∷ ps) = and_then (resolve p) (λ t. and_then (resolve_all ps) (λ ts. ok (t ∷ ts)))

  -- `Include`
  unfoldable pub include : List Text → Exec (Repo h) (Unit {0})
  include paths s = elim (resolve_all paths) [
    | err x ↦ (err x, s)
    | ok named ↦
        let m = s.garden.manifest in
        save_manifest h (with_manifest (record m { exclude = not_among named m.exclude }) s)
  ]
