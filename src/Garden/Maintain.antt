-- ===== src/Garden/Maintain.antt =====
-- garden/prune.go, verify.go and list.go
pub mod Pruning
pub mod Verifying
use sgard.Base.{
  ℕ, ◌+◌, Bool, true, false, ◌&&◌, not, List, [], ◌∷◌, Text, codes, ◌==◌, if◌then◌else◌, Result, ok,
  err, and_then,
}
use sgard.Manifest.{Entry, file_type}
use sgard.Store
use sgard.Host.{Host}
use sgard.Garden.{Repo, files}
use sgard.Garden.Identity.{contains}

-- `e.Type == "file" && e.Hash != ""`
abbrev pub has_blob : Entry → Bool
has_blob e = e.type == file_type && not (e.hash == [])

-- The keys of the map `referenced`
unfoldable pub referenced : List Entry → List Text
referenced [] = []
referenced (e ∷ es) = let rest = referenced es in if has_blob e then e.hash ∷ rest else rest

-- `VerifyResult`
pub record VerifyResult : Type 0 where
  pub path : Text
  pub is_good : Bool
  pub detail : Text

abbrev pub ok_detail : Text
ok_detail = codes "ok"

abbrev pub blob_missing : Text
blob_missing = codes "blob missing"

abbrev pub hash_mismatch_detail : Text
hash_mismatch_detail = codes "hash mismatch"

module _ (h : Host) where
  -- The loop of `Prune`, here and in server/server.go, with the number of blobs removed so far
  unfoldable pub prune_loop :
      Text → List Text → List Text → ℕ → h.State → Result (Unit {0}) × ℕ × h.State
  prune_loop root kept [] removed s = (ok tt, removed, s)
  prune_loop root kept (hash ∷ hashes) removed s = elim (contains kept hash) [
    | true ↦ prune_loop root kept hashes removed s
    | false ↦
        let (r, s') = Store.delete h root hash s in
        elim r [
          | err x ↦ (err x, removed, s')
          | ok _ ↦ prune_loop root kept hashes (removed + 1) s'
        ]
  ]

  -- The rest of `Prune`, once the store has listed its blobs
  abbrev pub pruned : Text → Repo h → Result (List Text) → Result (Unit {0}) × ℕ × Repo h
  pruned root s (err x) = (err x, 0, s)
  pruned root s (ok blobs) =
      let (r, n, d) = prune_loop root (referenced (files s)) blobs 0 s.disk in
      (r, n, record s { disk = d })

  -- `Prune`: the number comes beside the error
  unfoldable pub prune : Repo h → Result (Unit {0}) × ℕ × Repo h
  prune s = pruned s.garden.root s (Store.list h s.garden.root s.disk)

  -- The body of the loop of `Verify`, for a file entry
  unfoldable pub verify_entry : Text → Entry → h.State → Result VerifyResult
  verify_entry root e s =
      if Store.exists h root e.hash s
      then (and_then (Store.read h root e.hash s) (λ bytes. ok (
          if Store.hash_of h bytes == e.hash
          then record { path = e.path; is_good = true; detail = ok_detail }
          else record { path = e.path; is_good = false; detail = hash_mismatch_detail })))
      else ok (record { path = e.path; is_good = false; detail = blob_missing })

  unfoldable pub verify_loop : Text → List Entry → h.State → Result (List VerifyResult)
  verify_loop root [] s = ok []
  verify_loop root (e ∷ es) s =
      if e.type == file_type
      then (and_then (verify_entry root e s)
          (λ v. and_then (verify_loop root es s) (λ vs. ok (v ∷ vs))))
      else verify_loop root es s

  -- `Verify`
  unfoldable pub verify : Repo h → Result (List VerifyResult)
  unfolding verify_loop
  verify s = verify_loop s.garden.root (files s) s.disk

  -- `List`
  unfoldable pub list : Repo h → List Entry
  list s = files s
