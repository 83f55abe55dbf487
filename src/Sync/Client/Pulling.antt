-- ===== src/Sync/Client/Pulling.antt =====
-- `doPull` over a connection that loses nothing. A pull that succeeds is complete: the client has the
-- manifest of the server and every blob that it names.
use sgard.Base.{
  Error, blob_not_found, ◌>>◌, for_each, ℕ, ◌≡◌, ◌≢◌, ◌∙◌, refl, sym, ap, subst, false, ◌&&◌, not,
  eqb, some, List, [], ◌∷◌, ◌++◌, map, Text, Bytes, ltb, ◌%◌, ◌^◌, length, Result, ok, err,
  and_then, All, arith, Exec, pure, >>=-eq-ok,
}
use sgard.Paths.Clean.{IsComponent, render}
use sgard.Manifest.{Manifest}
use sgard.Manifest.Disk.{save}
use sgard.Store
use sgard.Host.{Host}
use sgard.Host.Laws.{DiskLaws}
use sgard.Garden.{Repo, files, with_manifest, replace_manifest}
use sgard.Sync.Proto.{Times, BlobChunk}
use sgard.Sync.Convert.RoundTrip.{IsPortable, proto_to_manifest-manifest_to_proto}
use sgard.Sync.Chunks.{blob_chunks, receive}
use sgard.Sync.Chunks.Keeping.{receive-err}
use sgard.Sync.Chunks.Reassembly.{write_all, receive-messages}
use sgard.Sync.Server.{Server, missing_blobs, pull_blobs, pull_manifest}
use sgard.Sync.Client.{do_pull, pull_newer, pull_missing, put_in_place, Both}
use sgard.Sync.Client.Local.{local, Connection}
use sgard.Sync.Client.Pushing.{
  read_all, read_all-Named, Named, chunks_of, messages-chunks_of, missing_blobs-named,
}
use sgard.Sync.Client.Filling.{IsPlaced, stored_complete, HoldsBlobs, missing_blobs-HoldsBlobs}

module _ (h : Host) where
  -- What a stream from the server comes to: all the blobs, or an end that is an error.
  Sent : Result (List (Text × Bytes)) → List BlobChunk × Result (Unit {0}) → Type 0
  Sent (ok blobs) out = out ≡ (chunks_of blobs, ok tt)
  Sent (err x) out = (y : Error) × (out.1 ≡ err y)

  Sent-behind :
      (hash : Text) (r : Result Bytes) (rest : Result (List (Text × Bytes)))
      (out : List BlobChunk × Result (Unit {0}))
      → Sent rest out
      → Sent (and_then r (λ bytes. and_then rest (λ blobs. ok ((hash, bytes) ∷ blobs)))) (
          let t : List BlobChunk × Result (Unit {0}) = elim r [
            | err _ ↦ ([], err (blob_not_found hash))
            | ok bytes ↦ (blob_chunks hash bytes ++ out.0, out.1)
          ] in
          t)
  unfolding Sent
  Sent-behind hash (ok bytes) (ok blobs) out sent =
      ap (λ (o : List BlobChunk × Result (Unit {0})). (blob_chunks hash bytes ++ o.0, o.1)) sent
  Sent-behind hash (ok bytes) (err x) out sent = sent
  Sent-behind hash (err x) rest out sent = (blob_not_found hash, refl)

  pull_blobs-Sent :
      (hashes : List Text) (s : Server h) → Sent (read_all h s.repo hashes) (pull_blobs h hashes s)
  unfolding Sent read_all pull_blobs
  pull_blobs-Sent [] s = refl
  pull_blobs-Sent (hash ∷ hashes) s =
      Sent-behind hash (Store.read h s.repo.garden.root hash s.repo.disk) (read_all h s.repo hashes)
        (pull_blobs h hashes s) (pull_blobs-Sent hashes s)

  received :
      (s : Server h) (g g' : Repo h) (hashes : List Text) (n : ℕ) (r : Result (List (Text × Bytes)))
      (out : List BlobChunk × Result (Unit {0}))
      → Named h r
      → read_all h s.repo hashes ≡ r
      → Sent r out
      → receive h (map some out.0) out.1 [] [] 0 g ≡ (ok n, g')
      → (blobs : List (Text × Bytes)) × (read_all h s.repo hashes ≡ ok blobs)
        × (write_all h blobs g ≡ (ok tt, g'))
  unfolding Sent
  received s g g' hashes n (ok blobs) out named read sent e =
      let e' : (write_all h blobs >> pure (length blobs % 2 ^ 32)) g ≡ (ok n, g') =
        ap (λ (f : Exec (Repo h) ℕ). f g) (sym (receive-messages h blobs named))
        ∙ ap (λ ms. receive h ms (ok tt) [] [] 0 g) (sym (messages-chunks_of blobs))
        ∙ ap (λ (o : List BlobChunk × Result (Unit {0})). receive h (map some o.0) o.1 [] [] 0 g)
            (sym sent)
        ∙ e in
      let (_, u, wrote, done) =
        >>=-eq-ok (write_all h blobs) (λ _. pure (length blobs % 2 ^ 32)) g n g' e' in
      (blobs, read, wrote ∙ ap (λ p. (ok tt, p.1)) done)
  received s g g' hashes n (err x) out named read sent e = absurd (
      receive-err h (map some out.0) sent.0 [] [] 0 n g g'
        (ap (λ end. receive h (map some out.0) end [] [] 0 g) (sym sent.1) ∙ e))

  module _ (times : Times) where
    received_over :
        (s : Server h) (sent : List BlobChunk) (g : Repo h) (b : Both h times (local h times))
        (n : ℕ) (out : Result ℕ × Repo h)
        → ◌≡◌ {A = Result ℕ × Both h times (local h times)} (out.0, (out.1, (s, sent))) (ok n, b)
        → (out ≡ (ok n, b.0)) × (b.1 ≡ (s, sent))
    received_over s sent g b n out e = (ap (λ p. (p.0, p.1.0)) e, ap (λ p. p.1.1) (sym e))

    pull_missing-eq-ok :
        (s : Server h) (sent : List BlobChunk) (g : Repo h) (b : Both h times (local h times))
        (hashes : List Text) (n : ℕ)
        → All (λ hash. hash ≢ []) hashes
        → pull_missing h times (local h times) hashes (g, (s, sent)) ≡ (ok n, b)
        → (blobs : List (Text × Bytes)) × (read_all h s.repo hashes ≡ ok blobs)
          × (write_all h blobs g ≡ (ok tt, b.0))
          × (b.1 ≡ (s, sent))
    unfolding pull_missing read_all write_all for_each
    pull_missing-eq-ok s sent g b [] n named e =
        ([], refl, ap (λ p. (ok tt, p.1.0)) e, ap (λ p. p.1.1) (sym e))
    pull_missing-eq-ok s sent g b (hash ∷ hashes) n named e =
        let streamed : List BlobChunk × Result (Unit {0}) = pull_blobs h (hash ∷ hashes) s in
        let (took, same) =
          received_over s sent g b n (receive h (map some streamed.0) streamed.1 [] [] 0 g)
            (rw some_missing at e) in
        let (blobs, read, wrote) =
          received s g b.0 (hash ∷ hashes) n (read_all h s.repo (hash ∷ hashes)) streamed
            (read_all-Named h s.repo (hash ∷ hashes) named) refl (pull_blobs-Sent (hash ∷ hashes) s)
            took in
        (blobs, read, wrote, same)
      where
        some_missing : eqb (length (hash ∷ hashes)) 0 ≡ false
        some_missing = ground arith

    replaced :
        (m : Manifest) (count n : ℕ) (g g' : Repo h) (c c' : Connection h)
        (out : Result (Unit {0}) × h.State)
        → (let (r, repo) : Result (Unit {0}) × Repo h = elim out.0 [
          | ok _ ↦ (ok tt, with_manifest m (record g { disk = out.1 }))
          | err x ↦ (err x, record g { disk = out.1 })
        ] in
            let t : Result ℕ × Both h times (local h times) = elim r [
              | err x ↦ (err x, (repo, c))
              | ok _ ↦ (ok count, (repo, c))
            ] in
            t)
          ≡ (ok n, (g', c'))
        → (g' ≡ with_manifest m (record g { disk = out.1 })) × (c' ≡ c)
    replaced m count n g g' c c' (ok _, d) e = (sym (ap (λ p. p.1.0) e), sym (ap (λ p. p.1.1) e))
    replaced m count n g g' c c' (err x, d) e = cc (ap (λ p. p.0) e)

    put_in_place-eq-ok :
        (m : Manifest) (count n : ℕ) (g g' : Repo h) (c c' : Connection h)
        → put_in_place h times (local h times) m count (g, c) ≡ (ok n, (g', c'))
        → (g' ≡ with_manifest m (record g { disk = (save h m g.garden.manifest_path g.disk).1 }))
          × (c' ≡ c)
    unfolding put_in_place replace_manifest
    put_in_place-eq-ok m count n g g' c c' e =
        replaced m count n g g' c c' (save h m g.garden.manifest_path g.disk) e

    module _ (laws : DiskLaws h) (t : Text) (ts : List Text)
        (rooted : All IsComponent (t ∷ ts)) where
      pull_newer_complete :
          (g g' : Repo h) (s s' : Server h) (sent sent' : List BlobChunk) (n : ℕ)
          → IsPlaced h laws t ts rooted g.garden
          → not (eqb (length (files g)) 0)
              && not (ltb g.garden.manifest.updated s.repo.garden.manifest.updated)
            ≡ false
          → pull_newer h times (local h times) s.repo.garden.manifest (g, (s, sent))
            ≡ (ok n, (g', (s', sent')))
          → (g'.garden.manifest ≡ s.repo.garden.manifest)
            × (s' ≡ s)
            × (missing_blobs h (render (t ∷ ts)) g'.disk (files s.repo) ≡ [])
      unfolding pull_newer
      pull_newer_complete g g' s s' sent sent' n at wanted e =
          let m : Manifest = s.repo.garden.manifest in
          let missing : List Text = missing_blobs h g.garden.root g.disk (files s.repo) in
          let (count, b, pulled, put) =
            >>=-eq-ok (pull_missing h times (local h times) missing)
              (put_in_place h times (local h times) m) (g, (s, sent)) n (g', (s', sent'))
              (rw wanted at e) in
          let (blobs, read, wrote, same) =
            pull_missing-eq-ok s sent g b missing count
              (missing_blobs-named h g.garden.root g.disk (files s.repo)) pulled in
          let (placed, over) = put_in_place-eq-ok m count n b.0 g' b.1 (s', sent') put in
          rw placed (
            refl,
            ap (λ c. c.0) (over ∙ same),
            stored_complete h laws t ts rooted s.repo m blobs g b.0 at read wrote,
          )

      -- On a disk with the laws of `DiskLaws`, over a connection that loses nothing, where a
      -- timestamp keeps the time that it is made of, and for a manifest of the server whose version
      -- and cost parameters fit an int32: a pull that returns without an error, to a repository that
      -- tracks nothing or was updated before the server's, leaves the client with the manifest of the
      -- server and, for each tracked file of that manifest that has a hash, encrypted or not, with the
      -- blob of that name in its store, and the server as it was. The client's
      -- repository lies at a rooted path of ordinary components, with its manifest in manifest.yaml.
      pub do_pull_complete :
          (g g' : Repo h) (s s' : Server h) (sent sent' : List BlobChunk) (n : ℕ)
          → ((x : ℕ) → times.as_time (times.stamp x) ≡ x)
          → IsPortable s.repo.garden.manifest
          → IsPlaced h laws t ts rooted g.garden
          → not (eqb (length (files g)) 0)
              && not (ltb g.garden.manifest.updated s.repo.garden.manifest.updated)
            ≡ false
          → do_pull h times (local h times) (g, (s, sent)) ≡ (ok n, (g', (s', sent')))
          → (g'.garden.manifest ≡ s.repo.garden.manifest)
            × (s' ≡ s)
            × HoldsBlobs h (render (t ∷ ts)) g'.disk (files s.repo)
      unfolding do_pull pull_manifest
      do_pull_complete g g' s s' sent sent' n back fits at wanted e =
          let (taken, same, nothing) = pull_newer_complete g g' s s' sent sent' n at wanted (
            subst
              (λ (m : Manifest).
                pull_newer h times (local h times) m (g, (s, sent)) ≡ (ok n, (g', (s', sent'))))
              (proto_to_manifest-manifest_to_proto times back s.repo.garden.manifest fits) e) in
          (taken, same, missing_blobs-HoldsBlobs h (render (t ∷ ts)) g'.disk (files s.repo) nothing)
