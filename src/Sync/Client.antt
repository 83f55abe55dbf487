-- ===== src/Sync/Client.antt =====
-- client/client.go. What the client sees of the server and of the connection is `Remote`: gRPC is not
-- modelled, a call may fail with any error, and a stream may break off.
pub mod Local
pub mod Pushing
pub mod Refining
pub mod Pulling
pub mod Filling
pub mod Complete
use sgard.Base.{
  ℕ, true, false, Bool, ◌&&◌, not, Option, none, some, List, [], ◌∷◌, ◌++◌, Text, ltb, eqb,
  if◌then◌else◌, Result, ok, err, Exec, pure, fail, lift, gets, for_each, ◌>>=◌, ◌>>◌,
  unauthenticated, server_newer, io, Error, codes, length,
}
use sgard.Manifest.{Manifest, Entry}
use sgard.Store
use sgard.Host.{Host}
use sgard.Garden.{Repo, files, replace_manifest}
use sgard.Sync.Proto.{
  Times, PbManifest, PushManifestResponse, BlobChunk, Decision, unspecified, accepted, rejected,
  up_to_date,
}
use sgard.Sync.Convert.{proto_to_manifest, manifest_to_proto}
use sgard.Sync.Chunks.{blob_chunks, receive}
use sgard.Sync.Server.{missing_blobs}

-- `sgardpb.GardenSyncClient` and its streams, with the state R behind them
pub record Remote (times : Times) : Type 1 where
  pub R : Type 0
  pub push_manifest : PbManifest times → Exec R (PushManifestResponse times)
  pub push_blobs : Exec R (Unit {0})
  pub send : BlobChunk → Exec R (Unit {0})
  pub close_and_recv : Exec R ℕ
  pub pull_manifest : Exec R (PbManifest times)
  pub pull_blobs : List Text → Exec R (List (Option BlobChunk) × Result (Unit {0}))
  pub prune : Exec R ℕ

-- Whether the error is a status with the code Unauthenticated
unfoldable pub is_unauthenticated : Error → Bool
is_unauthenticated unauthenticated = true
is_unauthenticated x = false

module _ (h : Host) (times : Times) (remote : Remote times) where
  -- The loop over the missing blobs in `doPush`
  unfoldable pub send_blobs : Repo h → List Text → Exec remote.R (Unit {0})
  send_blobs g hashes = for_each hashes λ hash. do
    bytes ← lift (Store.read h g.garden.root hash g.disk)
    for_each (blob_chunks hash bytes) remote.send

  -- The second step of `doPush`, for what the server decided
  unfoldable pub push_decided : Repo h → PushManifestResponse times → Exec remote.R ℕ
  push_decided g response = elim response.decision [
    | rejected ↦ fail server_newer
    | up_to_date ↦ pure 0
    | unspecified ↦ fail (io (codes "unexpected decision"))
    | accepted ↦
        if eqb (length response.missing_blobs) 0
        then (remote.push_blobs >> remote.close_and_recv >> pure 0)
        else (remote.push_blobs >> send_blobs g response.missing_blobs >> remote.close_and_recv)
  ]

  -- `doPush`
  unfoldable pub do_push : Repo h → Exec remote.R ℕ
  do_push g = remote.push_manifest (manifest_to_proto times g.garden.manifest) >>= push_decided g

  -- `List`, without its retry
  unfoldable pub do_list : Exec remote.R (List Entry)
  do_list = do response ← remote.pull_manifest; pure (proto_to_manifest times response).files

  abbrev pub Both : Type 0
  Both = Repo h × remote.R

  -- The third step of `doPull`
  unfoldable pub pull_missing : List Text → Exec Both ℕ
  pull_missing missing (g, r) =
      if eqb (length missing) 0
      then (ok 0, (g, r))
      else (let (result, r') = remote.pull_blobs missing r in
          elim result [
            | err x ↦ (err x, (g, r'))
            | ok stream ↦
                let (count, g') = receive h stream.0 stream.1 [] [] 0 g in (count, (g', r'))
          ])

  -- The fourth step of `doPull`
  unfoldable pub put_in_place : Manifest → ℕ → Exec Both ℕ
  put_in_place m count (g, r) =
      let (result, g') = replace_manifest h m g in
      elim result [ err x ↦ (err x, (g', r)) | ok _ ↦ (ok count, (g', r)) ]

  -- `doPull`, once the manifest of the server is there
  unfoldable pub pull_newer : Manifest → Exec Both ℕ
  pull_newer server (g, r) =
      if not (eqb (length (files g)) 0) && not (ltb g.garden.manifest.updated server.updated)
      then (ok 0, (g, r))
      else (pull_missing (missing_blobs h g.garden.root g.disk server.files)
            >>= put_in_place server)
          (g, r)

  -- `doPull`
  unfoldable pub do_pull : Exec Both ℕ
  do_pull (g, r) =
      let (result, r') = remote.pull_manifest r in
      elim result [
        | err x ↦ (err x, (g, r'))
        | ok response ↦ pull_newer (proto_to_manifest times response) (g, r')
      ]

-- `retryOnAuth`
module _ {S A : Type 0} (has_signer : Bool) (authenticate : Exec S (Unit {0})) where
  unfoldable pub retry_on_auth : Exec S A → Exec S A
  retry_on_auth fn s =
      let (r, s') = fn s in
      elim r [
        | ok a ↦ (ok a, s')
        | err x ↦
            if not has_signer
            then (err x, s')
            else if not (is_unauthenticated x)
            then (err x, s')
            else (authenticate >> fn) s'
      ]

module _ (h : Host) (times : Times) (remote : Remote times) (has_signer : Bool) where
  module _ (authenticate : Exec remote.R (Unit {0})) where
    -- `Push`
    unfoldable pub push : Repo h → Exec remote.R ℕ
    push g = retry_on_auth has_signer authenticate (do_push h times remote g)

    -- `List`
    unfoldable pub list : Exec remote.R (List Entry)
    list = retry_on_auth has_signer authenticate (do_list h times remote)

    -- `Prune`
    unfoldable pub prune : Exec remote.R ℕ
    prune = retry_on_auth has_signer authenticate remote.prune

  -- `Pull`
  unfoldable pub pull : Exec (Both h times remote) (Unit {0}) → Exec (Both h times remote) ℕ
  pull authenticate = retry_on_auth has_signer authenticate (do_pull h times remote)
