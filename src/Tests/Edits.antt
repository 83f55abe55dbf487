-- ===== src/Tests/Edits.antt =====
-- The methods that change the manifest alone.
use sgard.Base.{
  ℕ, ◌≡◌, refl, Bool, true, false, ◌||◌, Option, none, some, List, [], ◌∷◌, Text, codes, arith,
  Result, ok, err, is_ok, has_prefix, All, if◌then◌else◌,
}
use sgard.Paths.{to_tilde_path, expand_tilde_path}
use sgard.Manifest.{Manifest, Entry, is_excluded}
use sgard.Memory.{Files, memory}
use sgard.Targeting.{is_nonempty, entry_applies}
use sgard.Garden.{Repo, files, find_entry}
use sgard.Garden.Edit.{remove, set_locked, set_targeting, exclude, target_entry}
use sgard.Garden.Edit.Laws.{is_named, relock, remove_lem, set_locked_lem}
use sgard.Garden.Edit.Targeted.{Relabelled, set_targeting_lem}
use sgard.Garden.Edit.Excluding.{NoneExcluded, exclude_lem}
use sgard.Tests.Data.{disk, entry, repo}

abbrev bashrc : Text
bashrc = codes "~/.bashrc"

abbrev vimrc : Text
vimrc = codes "~/.vimrc"

abbrev two : Repo memory
two = repo (entry bashrc [] ∷ entry vimrc [] ∷ []) disk

abbrev args : List Text
args = codes "/h/.vimrc" ∷ []

abbrev removed : Repo memory
removed = (remove memory args two).1

remove_run : remove memory args two ≡ (ok tt, removed)
unfolding remove sgard.Garden.Edit.remove_path sgard.Base.for_each sgard.Garden.Edit.resolve
    sgard.Paths.abs sgard.Garden.is_tracked sgard.Base.◌==◌ to_tilde_path sgard.Paths.clean
    has_prefix sgard.Garden.save_manifest sgard.Manifest.Disk.save
    sgard.Host.Atomic.write_atomically sgard.Host.Atomic.move_into sgard.Host.Atomic.or_remove
    sgard.Host.Atomic.undone sgard.Memory.lookup sgard.Memory.insert sgard.Memory.erase
    sgard.Memory.stem sgard.Garden.Edit.then_save find_entry sgard.Paths.base sgard.Paths.dir
    sgard.Paths.dir_part sgard.Paths.intercalate sgard.Paths.is_abs sgard.Paths.join
    sgard.Paths.split sgard.Garden.update_entry sgard.Garden.Edit.drop_path expand_tilde_path
remove_run = refl

remove_lem_example :
    find_entry vimrc (files removed)
    ≡ (if is_named memory args vimrc then none else find_entry vimrc (files two))
remove_lem_example = remove_lem memory args two removed vimrc remove_run

remove_result : files removed ≡ entry bashrc [] ∷ []
unfolding remove sgard.Garden.Edit.remove_path sgard.Base.for_each sgard.Garden.Edit.resolve
    sgard.Paths.abs sgard.Garden.is_tracked sgard.Base.◌==◌ to_tilde_path sgard.Paths.clean
    has_prefix sgard.Garden.save_manifest sgard.Manifest.Disk.save
    sgard.Host.Atomic.write_atomically sgard.Host.Atomic.move_into sgard.Host.Atomic.or_remove
    sgard.Host.Atomic.undone sgard.Memory.lookup sgard.Memory.insert sgard.Memory.erase
    sgard.Memory.stem sgard.Garden.Edit.then_save find_entry sgard.Paths.base sgard.Paths.dir
    sgard.Paths.dir_part sgard.Paths.intercalate sgard.Paths.is_abs sgard.Paths.join
    sgard.Paths.split sgard.Garden.update_entry sgard.Garden.Edit.drop_path expand_tilde_path
remove_result = refl

abbrev locked : Repo memory
locked = (set_locked memory args true two).1

set_locked_run : set_locked memory args true two ≡ (ok tt, locked)
unfolding set_locked sgard.Garden.Edit.lock_path sgard.Base.for_each sgard.Garden.Edit.resolve
    sgard.Paths.abs sgard.Garden.is_tracked sgard.Base.◌==◌ to_tilde_path sgard.Paths.clean
    has_prefix sgard.Garden.save_manifest sgard.Manifest.Disk.save
    sgard.Host.Atomic.write_atomically sgard.Host.Atomic.move_into sgard.Host.Atomic.or_remove
    sgard.Host.Atomic.undone sgard.Memory.lookup sgard.Memory.insert sgard.Memory.erase
    sgard.Memory.stem sgard.Garden.Edit.then_save find_entry sgard.Paths.base sgard.Paths.dir
    sgard.Paths.dir_part sgard.Paths.intercalate sgard.Paths.is_abs sgard.Paths.join
    sgard.Paths.split sgard.Garden.update_entry sgard.Garden.Edit.drop_path expand_tilde_path
set_locked_run = refl

set_locked_lem_example : find_entry vimrc (files locked) ≡ (
    if is_named memory args vimrc
    then relock true (find_entry vimrc (files two))
    else find_entry vimrc (files two))
set_locked_lem_example = set_locked_lem memory args true two locked vimrc set_locked_run

abbrev targeted : Repo memory
targeted = (set_targeting memory vimrc (codes "work" ∷ []) [] false two).1

set_targeting_run : set_targeting memory vimrc (codes "work" ∷ []) [] false two ≡ (ok tt, targeted)
unfolding set_targeting target_entry sgard.Base.for_each sgard.Garden.Edit.resolve sgard.Paths.abs
    sgard.Garden.is_tracked sgard.Base.◌==◌ to_tilde_path sgard.Paths.clean has_prefix
    sgard.Garden.save_manifest sgard.Manifest.Disk.save sgard.Host.Atomic.write_atomically
    sgard.Host.Atomic.move_into sgard.Host.Atomic.or_remove sgard.Host.Atomic.undone
    sgard.Memory.lookup sgard.Memory.insert sgard.Memory.erase sgard.Memory.stem
    sgard.Garden.Edit.then_save find_entry sgard.Paths.base sgard.Paths.dir sgard.Paths.dir_part
    sgard.Paths.intercalate sgard.Paths.is_abs sgard.Paths.join sgard.Paths.split
    sgard.Garden.update_entry sgard.Garden.Edit.drop_path expand_tilde_path
set_targeting_run = refl

set_targeting_lem_example :
    (x : Text) × (expand_tilde_path memory.home vimrc ≡ ok x)
    × (e : Entry) × (find_entry (to_tilde_path memory.home x) (files two) ≡ some e)
    × (e' : Entry) × (find_entry (to_tilde_path memory.home x) (files targeted) ≡ some e')
    × Relabelled (codes "work" ∷ []) [] false e e'
    × ((false || (is_nonempty (codes "work" ∷ []) || is_nonempty {A = Text} [])) ≡ true
        → is_ok (entry_applies e' (codes "home" ∷ [])) ≡ true)
set_targeting_lem_example =
    set_targeting_lem memory vimrc (codes "work" ∷ []) [] false two targeted (codes "home" ∷ [])
      set_targeting_run

abbrev excluded : Repo memory
excluded = (exclude memory args two).1

two-NoneExcluded : NoneExcluded memory two
unfolding NoneExcluded is_excluded sgard.Manifest.new_with_time
two-NoneExcluded = (refl, (refl, tt))

exclude_run : exclude memory args two ≡ (ok tt, excluded)
unfolding exclude sgard.Garden.Edit.exclude_path sgard.Garden.Identity.contains
    sgard.Garden.Edit.remove_excluded_entries is_excluded sgard.Base.has_suffix sgard.Base.for_each
    sgard.Garden.Edit.resolve sgard.Paths.abs sgard.Garden.is_tracked sgard.Base.◌==◌ to_tilde_path
    sgard.Paths.clean has_prefix sgard.Garden.save_manifest sgard.Manifest.Disk.save
    sgard.Host.Atomic.write_atomically sgard.Host.Atomic.move_into sgard.Host.Atomic.or_remove
    sgard.Host.Atomic.undone sgard.Memory.lookup sgard.Memory.insert sgard.Memory.erase
    sgard.Memory.stem sgard.Garden.Edit.then_save find_entry sgard.Paths.base sgard.Paths.dir
    sgard.Paths.dir_part sgard.Paths.intercalate sgard.Paths.is_abs sgard.Paths.join
    sgard.Paths.split sgard.Garden.update_entry sgard.Garden.Edit.drop_path expand_tilde_path
    sgard.Manifest.new_with_time
exclude_run = refl

vimrc-is_named : is_named memory args vimrc ≡ true
unfolding is_named sgard.Garden.Edit.resolve sgard.Paths.abs sgard.Base.◌==◌ to_tilde_path
    sgard.Paths.clean has_prefix
vimrc-is_named = refl

vimrc-is_excluded : is_excluded excluded.garden.manifest vimrc ≡ true
unfolding exclude sgard.Garden.Edit.exclude_path sgard.Garden.Identity.contains
    sgard.Garden.Edit.remove_excluded_entries is_excluded sgard.Base.has_suffix sgard.Base.for_each
    sgard.Garden.Edit.resolve sgard.Paths.abs sgard.Garden.is_tracked sgard.Base.◌==◌ to_tilde_path
    sgard.Paths.clean has_prefix sgard.Garden.save_manifest sgard.Manifest.Disk.save
    sgard.Host.Atomic.write_atomically sgard.Host.Atomic.move_into sgard.Host.Atomic.or_remove
    sgard.Host.Atomic.undone sgard.Memory.lookup sgard.Memory.insert sgard.Memory.erase
    sgard.Memory.stem sgard.Garden.Edit.then_save find_entry sgard.Paths.base sgard.Paths.dir
    sgard.Paths.dir_part sgard.Paths.intercalate sgard.Paths.is_abs sgard.Paths.join
    sgard.Paths.split sgard.Garden.update_entry sgard.Garden.Edit.drop_path expand_tilde_path
    sgard.Manifest.new_with_time
vimrc-is_excluded = refl

exclude_lem_example :
    (is_excluded excluded.garden.manifest vimrc ≡ true)
    × (find_entry vimrc (files excluded) ≡ none)
    × (find_entry vimrc (files excluded) ≡ none)
exclude_lem_example =
    exclude_lem memory args two excluded vimrc vimrc two-NoneExcluded exclude_run vimrc-is_named
      vimrc-is_excluded
