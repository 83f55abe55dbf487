-- ===== src/Tests/Repos.antt =====
-- Repositories.
use sgard.Base.{
  ℕ, ◌≡◌, ◌≢◌, ◌↔◌, refl, Bool, true, false, Option, none, some, List, [], ◌∷◌, Text, Bytes, codes,
  arith, Result, ok, err, All, Any, eq_refl, ◌++◌, AllPairs, inl, inr,
}
use sgard.Manifest.{file_type}
use sgard.Garden.Identity.{contains}
use sgard.Memory.{Files, memory}
use sgard.Memory.Laws.{memory-DiskLaws}
use sgard.Store
use sgard.Store.{valid_hash, hash_of}
use sgard.Store.Laws.{hash_of-valid_hash}
use sgard.Garden.{Repo, files}
use sgard.Garden.Add.{no_options}
use sgard.Garden.Checkpoint.{checkpoint}
use sgard.Garden.Checkpoint.Keeps.{Keeps, checkpoint-Keeps}
use sgard.Garden.Maintain.{VerifyResult, has_blob, verify, prune, referenced, ok_detail}
use sgard.Garden.Maintain.Pruning.{SameBlob, unkept, prune-kept, prune-gone}
use sgard.Garden.Maintain.Verifying.{all_good, IsSound, verify_iff}
use sgard.Garden.Unique.{IsUnique}
use sgard.Garden.History.{
  Operation, adding, checkpointing, replacing, pruning, Allowed, run_all, run_all-IsUnique,
}
use sgard.Tests.Data.{place, rooted, hello, disk, entry, repo, manifest_of}
use sgard.Tests.Blobs.{hash, wrote, reads_back, exists_back}

-- The file in the home directory, as it is tracked, with its blob in the store
abbrev tracking : Repo memory
tracking = repo (entry (codes "~/.bashrc") hash ∷ []) wrote

abbrev history : List (Operation memory)
history =
    adding (codes "/h/.bashrc" ∷ []) no_options 8
    ∷ checkpointing (codes "m") 9
    ∷ replacing (manifest_of (entry (codes "~/.bashrc") hash ∷ []))
    ∷ adding (codes "/h/.bashrc" ∷ []) no_options 10
    ∷ pruning
    ∷ []

history-Allowed : All (Allowed memory) history
unfolding Allowed contains
history-Allowed = (tt, (tt, ((refl, tt), (tt, (tt, tt)))))

fresh-IsUnique : IsUnique (repo [] disk)
fresh-IsUnique = tt

run_all-IsUnique_example : IsUnique (run_all memory history (repo [] disk))
run_all-IsUnique_example =
    run_all-IsUnique memory {home = codes "/h"} refl history (repo [] disk) history-Allowed
      fresh-IsUnique

has : has_blob (entry (codes "~/.bashrc") hash) ≡ true
unfolding sgard.Base.◌==◌ hash_of Store.hex
has = refl

prune-kept_example : SameBlob memory (codes "/r") hash wrote (prune memory tracking).2.disk
prune-kept_example =
    prune-kept memory memory-DiskLaws place [] rooted tracking hash refl (inl (has, refl))
      (hash_of-valid_hash memory memory-DiskLaws hello)

-- Nothing is tracked, and the store lists a blob.
abbrev blob_name : Text
blob_name = codes "aabb000000000000000000000000000000000000000000000000000000000000"

abbrev untracked : Repo memory
untracked = repo [] ((codes "/r/blobs/aa/bb/" ++ blob_name, hello) ∷ [])

list_run : Store.list memory (codes "/r") untracked.disk ≡ ok (blob_name ∷ [])
unfolding Store.list sgard.Host.Walk.walk_tree sgard.Memory.leaves sgard.Memory.lookup
    sgard.Base.◌==◌ Store.blob_path sgard.Paths.join_all sgard.Paths.clean sgard.Base.is_not_exist
    sgard.Base.has_prefix sgard.Paths.base sgard.Paths.dir sgard.Paths.dir_part
    sgard.Paths.intercalate sgard.Paths.is_abs sgard.Paths.join sgard.Paths.split Store.all_hex
    Store.is_hex_char valid_hash
list_run = refl

prune_run : prune memory untracked ≡ (ok tt, 1, repo [] [])
unfolding prune Store.list sgard.Host.Walk.walk_tree sgard.Memory.leaves sgard.Memory.lookup
    sgard.Base.◌==◌ Store.blob_path sgard.Paths.join_all sgard.Paths.clean sgard.Base.is_not_exist
    sgard.Base.has_prefix sgard.Paths.base sgard.Paths.dir sgard.Paths.dir_part
    sgard.Paths.intercalate sgard.Paths.is_abs sgard.Paths.join sgard.Paths.split Store.all_hex
    Store.is_hex_char valid_hash sgard.Garden.Identity.contains sgard.Garden.Maintain.prune_loop
    referenced Store.delete sgard.Memory.erase
prune_run = refl

there : contains (blob_name ∷ []) blob_name ≡ true
unfolding contains
there = rw eq_refl refl

out : contains (referenced []) blob_name ≡ false
unfolding contains referenced
out = refl

prune-gone_example :
    (1 ≡ unkept (referenced []) (blob_name ∷ []))
    × ((j : Text)
        → contains (blob_name ∷ []) j ≡ true
        → contains (referenced []) j ≡ false
        → Store.exists memory (codes "/r") j [] ≡ false)
prune-gone_example =
    prune-gone memory memory-DiskLaws place [] rooted untracked (repo [] []) 1 (blob_name ∷ []) refl
      list_run prune_run

abbrev good : VerifyResult
good = record { path = codes "~/.bashrc"; is_good = true; detail = ok_detail }

verify_run : verify memory tracking ≡ ok (good ∷ [])
unfolding verify sgard.Garden.Maintain.verify_loop sgard.Garden.Maintain.verify_entry
verify_run = ground (arith, exists_back, reads_back, eq_refl hash, eq_refl file_type)

verify_iff_example :
    (all_good (good ∷ []) ≡ true) ↔ All (IsSound memory (codes "/r") wrote) (files tracking)
verify_iff_example = verify_iff memory tracking (good ∷ []) verify_run

checkpoint-Keeps_example :
    AllPairs (Keeps 9) (files tracking) (files (checkpoint memory (codes "m") 9 tracking).1)
checkpoint-Keeps_example = checkpoint-Keeps memory (codes "m") 9 tracking
