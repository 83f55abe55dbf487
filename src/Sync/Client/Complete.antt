-- ===== src/Sync/Client/Complete.antt =====
-- A push that succeeds is complete: the server has the manifest and every blob that it names.
use sgard.Base.{
  false, arith, Bool-cases, inl, inr, subst, ℕ, ◌≡◌, ◌∙◌, refl, sym, ap, true, some, none, List, [],
  ◌∷◌, Text, Bytes, ltb, ◌%◌, ◌^◌, length, Result, ok, err, All,
}
use sgard.Paths.Clean.{IsComponent, render}
use sgard.Manifest.{Manifest}
use sgard.Manifest.Disk.{save}
use sgard.Host.{Host}
use sgard.Host.Laws.{DiskLaws}
use sgard.Garden.{Repo, files, with_manifest, replace_manifest}
use sgard.Sync.Chunks.Reassembly.{write_all}
use sgard.Sync.Server.{Server, missing_blobs}
use sgard.Sync.Proto.{Times, BlobChunk}
use sgard.Sync.Convert.RoundTrip.{IsPortable}
use sgard.Sync.Client.{do_push}
use sgard.Sync.Client.Local.{local}
use sgard.Sync.Client.Filling.{IsPlaced, stored_complete, HoldsBlobs, missing_blobs-HoldsBlobs}
use sgard.Sync.Client.Pushing.{read_all, deliver, push_whole, outcome, do_push_over}

module _ (h : Host) where
  put_in_place :
      (m : Manifest) (count n : ℕ) (repo : Repo h) (s' : Server h)
      (out : Result (Unit {0}) × h.State)
      → (let (r, repo') : Result (Unit {0}) × Repo h = elim out.0 [
        | ok _ ↦ (ok tt, with_manifest m (record repo { disk = out.1 }))
        | err x ↦ (err x, record repo { disk = out.1 })
      ] in
          let t : Result ℕ × Server h = elim r [
            | err x ↦ (err x, record { repo = repo'; pending = some m })
            | ok _ ↦ (ok count, record { repo = repo'; pending = none })
          ] in
          t)
        ≡ (ok n, s')
      → s' ≡ record { repo = with_manifest m (record repo { disk = out.1 }); pending = none }
  put_in_place m count n repo s' (ok _, d) e = sym (ap (λ p. p.1) e)
  put_in_place m count n repo s' (err x, d) e = cc (ap (λ p. p.0) e)

  delivered :
      (m : Manifest) (count n : ℕ) (s' : Server h) (out : Result (Unit {0}) × Repo h)
      → (let t : Result ℕ × Server h = elim out.0 [
        | err x ↦ (err x, record { repo = out.1; pending = some m })
        | ok _ ↦
            let (r', repo') = replace_manifest h m out.1 in
            elim r' [
              | err x ↦ (err x, record { repo = repo'; pending = some m })
              | ok _ ↦ (ok count, record { repo = repo'; pending = none })
            ]
      ] in
          t)
        ≡ (ok n, s')
      → (out ≡ (ok tt, out.1))
        × (s' ≡ record {
          repo =
              with_manifest m
                (record out.1 { disk = (save h m out.1.garden.manifest_path out.1.disk).1 });
          pending = none;
        })
  unfolding replace_manifest
  delivered m count n s' (ok _, repo) e =
      (refl, put_in_place m count n repo s' (save h m repo.garden.manifest_path repo.disk) e)
  delivered m count n s' (err x, repo) e = cc (ap (λ p. p.0) e)

  module _ (laws : DiskLaws h) (t : Text) (ts : List Text) (rooted : All IsComponent (t ∷ ts)) where
    deliver_complete :
        (g : Repo h) (m : Manifest) (blobs : List (Text × Bytes)) (s s' : Server h) (n : ℕ)
        → IsPlaced h laws t ts rooted s.repo.garden
        → read_all h g (missing_blobs h s.repo.garden.root s.repo.disk m.files) ≡ ok blobs
        → deliver h m blobs s ≡ (ok n, s')
        → (s'.repo.garden.manifest ≡ m)
          × (s'.pending ≡ none)
          × (missing_blobs h (render (t ∷ ts)) s'.repo.disk m.files ≡ [])
    unfolding deliver
    deliver_complete g m blobs s s' n at read e =
        let repo : Repo h = (write_all h blobs s.repo).1 in
        let (wrote, final) =
          delivered m (length blobs % 2 ^ 32) n s' (write_all h blobs s.repo) e in
        rw final
          (refl, refl, stored_complete h laws t ts rooted g m blobs s.repo repo at read wrote)

    read_first :
        (g : Repo h) (m : Manifest) (s s' : Server h) (n : ℕ) (out : Result (List (Text × Bytes)))
        → IsPlaced h laws t ts rooted s.repo.garden
        → read_all h g (missing_blobs h s.repo.garden.root s.repo.disk m.files) ≡ out
        → (let t : Result ℕ × Server h = elim out [
          | err x ↦ (err x, record s { pending = some m })
          | ok blobs ↦ deliver h m blobs s
        ] in
            t)
          ≡ (ok n, s')
        → (s'.repo.garden.manifest ≡ m)
          × (s'.pending ≡ none)
          × (missing_blobs h (render (t ∷ ts)) s'.repo.disk m.files ≡ [])
    read_first g m s s' n (ok blobs) at read e = deliver_complete g m blobs s s' n at read e
    read_first g m s s' n (err x) at read e = cc (ap (λ p. p.0) e)

    push_whole_complete :
        (g : Repo h) (s s' : Server h) (n : ℕ)
        → IsPlaced h laws t ts rooted s.repo.garden
        → ltb s.repo.garden.manifest.updated g.garden.manifest.updated ≡ true
        → push_whole h g s ≡ (ok n, s')
        → (s'.repo.garden.manifest ≡ g.garden.manifest)
          × (s'.pending ≡ none)
          × (missing_blobs h (render (t ∷ ts)) s'.repo.disk (files g) ≡ [])
    unfolding push_whole
    push_whole_complete g s s' n at newer e =
        read_first g g.garden.manifest s s' n
          (read_all h g (missing_blobs h s.repo.garden.root s.repo.disk (files g))) at refl
          (rw newer at e)

    -- On a disk with the laws of `DiskLaws`, over a connection that loses nothing, where a timestamp
    -- keeps the time that it is made of, and for a manifest whose version and cost parameters fit an
    -- int32: a push from a repository that was updated after the server's, and that returns without
    -- an error, leaves the server with the manifest of the client, with no manifest that waits, and
    -- for each tracked file of the manifest
    -- that has a hash, encrypted or not, the blob of that name in the store. The server's repository lies at a rooted path of
    -- ordinary components, with its manifest in manifest.yaml.
    pub do_push_complete :
        (times : Times) (g : Repo h) (s s' : Server h) (sent sent' : List BlobChunk) (n : ℕ)
        → ((x : ℕ) → times.as_time (times.stamp x) ≡ x)
        → IsPortable g.garden.manifest
        → IsPlaced h laws t ts rooted s.repo.garden
        → ltb s.repo.garden.manifest.updated g.garden.manifest.updated ≡ true
        → do_push h times (local h times) g (s, sent) ≡ (ok n, (s', sent'))
        → (s'.repo.garden.manifest ≡ g.garden.manifest)
          × (s'.pending ≡ none)
          × HoldsBlobs h (render (t ∷ ts)) s'.repo.disk (files g)
    do_push_complete times g s s' sent sent' n back fits at newer e =
        let (taken, applied, nothing) =
          push_whole_complete g s s' n at newer
            (sym (do_push_over h times g s sent fits back) ∙ ap (outcome h times g) e) in
        (
          taken,
          applied,
          missing_blobs-HoldsBlobs h (render (t ∷ ts)) s'.repo.disk (files g) nothing,
        )

  -- What a push leaves behind that came through
  UpToDate : Repo h → Server h → Type 0
  UpToDate g s =
      (ltb s.repo.garden.manifest.updated g.garden.manifest.updated ≡ false)
      × (ltb g.garden.manifest.updated s.repo.garden.manifest.updated ≡ false)

  deliver-UpToDate :
      (g : Repo h) (s s' : Server h) (n : ℕ) (out : Result (List (Text × Bytes)))
      → (let t : Result ℕ × Server h = elim out [
        | err x ↦ (err x, record s { pending = some g.garden.manifest })
        | ok blobs ↦ deliver h g.garden.manifest blobs s
      ] in
          t)
        ≡ (ok n, s')
      → UpToDate g s'
  unfolding UpToDate deliver
  deliver-UpToDate g s s' n (ok blobs) e =
      let (wrote, final) =
        delivered g.garden.manifest (length blobs % 2 ^ 32) n s' (write_all h blobs s.repo) e in
      rw final (ground arith, ground arith)
  deliver-UpToDate g s s' n (err x) e = cc (ap (λ p. p.0) e)

  push_whole-UpToDate :
      (g : Repo h) (s s' : Server h) (n : ℕ) → push_whole h g s ≡ (ok n, s') → UpToDate g s'
  unfolding push_whole UpToDate
  push_whole-UpToDate g s s' n e =
      elim (Bool-cases (ltb s.repo.garden.manifest.updated g.garden.manifest.updated)) [
        | inl newer ↦
            deliver-UpToDate g s s' n
              (read_all h g (missing_blobs h s.repo.garden.root s.repo.disk (files g)))
              (rw newer at e)
        | inr older ↦
            elim (Bool-cases (ltb g.garden.manifest.updated s.repo.garden.manifest.updated)) [
              | inl behind ↦ cc (ap (λ (p : Result ℕ × Server h). p.0) (rw (older, behind) at e))
              | inr equal ↦
                  subst (UpToDate g)
                    (ap (λ (p : Result ℕ × Server h). p.1) (rw (older, equal) at e)) (older, equal)
            ]
      ]

  push_whole_settled : (g : Repo h) (s : Server h) → UpToDate g s → push_whole h g s ≡ (ok 0, s)
  unfolding push_whole UpToDate
  push_whole_settled g s settled = rw (settled.0, settled.1) refl

  -- Over a connection that loses nothing, where a timestamp keeps the time that it is made of, and
  -- for a manifest whose version and cost parameters fit an int32: behind a push that returns without
  -- an error, and with whatever the stream still holds, the same push returns at once without an
  -- error, sends no blob and leaves the server as it is.
  pub do_push_settled :
      (times : Times) (g : Repo h) (s s' : Server h) (sent sent' again : List BlobChunk) (n : ℕ)
      → ((x : ℕ) → times.as_time (times.stamp x) ≡ x)
      → IsPortable g.garden.manifest
      → do_push h times (local h times) g (s, sent) ≡ (ok n, (s', sent'))
      → outcome h times g (do_push h times (local h times) g (s', again)) ≡ (ok 0, s')
  do_push_settled times g s s' sent sent' again n back fits e =
      do_push_over h times g s' again fits back
      ∙ push_whole_settled g s' (
          push_whole-UpToDate g s s' n
            (sym (do_push_over h times g s sent fits back) ∙ ap (outcome h times g) e))
