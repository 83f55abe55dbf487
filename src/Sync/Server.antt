-- ===== src/Sync/Server.antt =====
-- server/server.go: the repository of the server beside the manifest that waits for its blobs. A
-- handler holds the lock of the server from its beginning to its end, so a handler is one step.
pub mod Progress
pub mod Breaking
use sgard.Base.{
  ℕ, ◌%◌, ◌^◌, true, false, ◌&&◌, not, Option, none, some, List, [], ◌∷◌, ◌++◌, Text, ltb,
  if◌then◌else◌, Result, ok, err, blob_not_found,
}
use sgard.Manifest.{Manifest, Entry}
use sgard.Store
use sgard.Host.{Host}
use sgard.Garden.{Repo, files, replace_manifest}
use sgard.Garden.Maintain.{has_blob, referenced, prune_loop}
use sgard.Sync.Proto.{
  Times, PbManifest, PushManifestResponse, BlobChunk, accepted, rejected, up_to_date,
}
use sgard.Sync.Convert.{proto_to_manifest, manifest_to_proto}
use sgard.Sync.Chunks.{blob_chunks, receive}

pub record Server (h : Host) : Type 0 where
  pub repo : Repo h
  pub pending : Option Manifest

module _ (h : Host) where
  -- `New`
  unfoldable pub new : Repo h → Server h
  new repo = record { repo = repo; pending = none }

  -- The loops of `PushManifest` and of `doPull` that collect the blobs that are not there
  unfoldable pub missing_blobs : Text → h.State → List Entry → List Text
  missing_blobs root s [] = []
  missing_blobs root s (e ∷ es) =
      let rest = missing_blobs root s es in
      if has_blob e && not (Store.exists h root e.hash s) then e.hash ∷ rest else rest

  -- `PushBlobs`, once the stream has ended: the manifest that waits is put in place.
  unfoldable pub apply_pending : ℕ → Server h → Result ℕ × Server h
  apply_pending count s = elim s.pending [
    | none ↦ (ok count, s)
    | some m ↦
        let (r, repo) = replace_manifest h m s.repo in
        elim r [
          | err x ↦ (err x, record s { repo = repo })
          | ok _ ↦ (ok count, record { repo = repo; pending = none })
        ]
  ]

  -- `PushBlobs`
  unfoldable pub push_blobs :
      List (Option BlobChunk) → Result (Unit {0}) → Server h → Result ℕ × Server h
  push_blobs messages end s =
      let (r, repo) = receive h messages end [] [] 0 s.repo in
      elim r [
        | err x ↦ (err x, record s { repo = repo })
        | ok count ↦ apply_pending count (record s { repo = repo })
      ]

  -- `PullBlobs`: what it has sent, and how it ends
  unfoldable pub pull_blobs : List Text → Server h → List BlobChunk × Result (Unit {0})
  pull_blobs [] s = ([], ok tt)
  pull_blobs (hash ∷ hashes) s =
      let (rest, end) = pull_blobs hashes s in
      elim (Store.read h s.repo.garden.root hash s.repo.disk) [
        | err _ ↦ ([], err (blob_not_found hash))
        | ok bytes ↦ (blob_chunks hash bytes ++ rest, end)
      ]

  -- `Prune`: the number does not come beside an error.
  unfoldable pub prune : Server h → Result ℕ × Server h
  prune s = elim (Store.list h s.repo.garden.root s.repo.disk) [
    | err x ↦ (err x, s)
    | ok blobs ↦
        let (r, removed, d) =
          prune_loop h s.repo.garden.root (referenced (files s.repo)) blobs 0 s.repo.disk in
        let s' = record s { repo = record s.repo { disk = d } } in
        elim r [ err x ↦ (err x, s') | ok _ ↦ (ok (removed % 2 ^ 32), s') ]
  ]

module _ (h : Host) (times : Times) where
  -- `PushManifest`
  unfoldable pub push_manifest : PbManifest times → Server h → PushManifestResponse times × Server h
  push_manifest request s =
      let server = s.repo.garden.manifest in
      let client = proto_to_manifest times request in
      let missing = missing_blobs h s.repo.garden.root s.repo.disk client.files in
      if ltb server.updated client.updated
      then (
        record {
          decision = accepted;
          missing_blobs = missing;
          server_updated = times.stamp server.updated;
        },
        record s { pending = some client },
      )
      else if ltb client.updated server.updated
      then (
        record {
          decision = rejected;
          missing_blobs = [];
          server_updated = times.stamp server.updated;
        },
        s,
      )
      else (
        record {
          decision = up_to_date;
          missing_blobs = [];
          server_updated = times.stamp server.updated;
        },
        s,
      )

  -- `PullManifest`
  unfoldable pub pull_manifest : Server h → PbManifest times
  pull_manifest s = manifest_to_proto times s.repo.garden.manifest
