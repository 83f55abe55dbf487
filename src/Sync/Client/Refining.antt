-- ===== src/Sync/Client/Refining.antt =====
-- `doPush` over a connection that loses nothing refines the push without messages.
use sgard.Base.{
  ℕ, ◌≡◌, ◌∙◌, refl, ap, true, some, List, Text, Bytes, map, take, Result, ok, err, Error, ltb,
}
use sgard.Manifest.{Manifest}
use sgard.Host.{Host}
use sgard.Garden.{Repo, files}
use sgard.Sync.Proto.{Times, BlobChunk}
use sgard.Sync.Convert.RoundTrip.{IsPortable}
use sgard.Sync.Server.Breaking.{push_blobs-broken}
use sgard.Sync.Server.{Server, missing_blobs}
use sgard.Sync.Client.{do_push}
use sgard.Sync.Client.Local.{Connection, local, given_up}
use sgard.Sync.Client.Pushing.{read_all, push_whole, outcome, do_push_over}

module _ (h : Host) where
  push_whole_unread :
      (g : Repo h) (s : Server h) (x : Error)
      → ltb s.repo.garden.manifest.updated g.garden.manifest.updated ≡ true
      → read_all h g (missing_blobs h s.repo.garden.root s.repo.disk (files g)) ≡ err x
      → push_whole h g s ≡ (err x, record s { pending = some g.garden.manifest })
  unfolding push_whole
  push_whole_unread g s x newer unread = rw (newer, unread) refl

  given_up_by :
      (m : Manifest) (k : ℕ) (y : Error) (s : Server h) (c : Connection h)
      → c.0 ≡ record s { pending = some m }
      → ((given_up h k y c).repo.garden ≡ s.repo.garden) × ((given_up h k y c).pending ≡ some m)
  given_up_by m k y s c e =
      let (_, _, garden, pending) = push_blobs-broken h (map some (take k c.1)) y c.0 in
      (garden ∙ ap (λ t. t.repo.garden) e, pending ∙ ap (λ t. t.pending) e)

  -- Over the connection of `local`, which loses nothing and whose handler takes the chunks when the
  -- stream is closed, where a timestamp keeps the time that it is made of, and for a manifest whose
  -- version and cost parameters fit an int32. Where the client can read every blob that the server
  -- misses: a push by messages and chunks has the result of the push without them and leaves the
  -- server the same, whether the server is newer, equal or older, a blob cannot be written, the
  -- manifest cannot be saved, or all succeeds. Where the client is newer and cannot read one of those
  -- blobs: the push fails with that error, and however many of the chunks in flight the server has
  -- taken before the stream breaks off, its garden is as it was and the client's manifest waits.
  pub do_push-push_whole :
      (times : Times) (g : Repo h) (s : Server h) (sent : List BlobChunk)
      → IsPortable g.garden.manifest
      → ((t : ℕ) → times.as_time (times.stamp t) ≡ t)
      → (let missing : List Text = missing_blobs h s.repo.garden.root s.repo.disk (files g) in
          let out : Result ℕ × Connection h = do_push h times (local h times) g (s, sent) in
          ((blobs : List (Text × Bytes))
            → read_all h g missing ≡ ok blobs
            → outcome h times g out ≡ push_whole h g s)
          × ((x : Error)
              → ltb s.repo.garden.manifest.updated g.garden.manifest.updated ≡ true
              → read_all h g missing ≡ err x
              → (out.0 ≡ err x)
                × ((k : ℕ) (y : Error)
                    → ((given_up h k y out.1).repo.garden ≡ s.repo.garden)
                      × ((given_up h k y out.1).pending ≡ some g.garden.manifest))))
  do_push-push_whole times g s sent fits back = (
    (λ blobs read. do_push_over h times g s sent fits back),
    (λ x newer unread.
        let e = do_push_over h times g s sent fits back ∙ push_whole_unread g s x newer unread in
        (
          ap (λ (r : Result ℕ × Server h). r.0) e,
          λ k y.
              given_up_by g.garden.manifest k y s (do_push h times (local h times) g (s, sent)).1
                (ap (λ (r : Result ℕ × Server h). r.1) e),
        )),
  )
