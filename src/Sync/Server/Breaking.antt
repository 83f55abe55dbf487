-- ===== src/Sync/Server/Breaking.antt =====
-- What `PushBlobs` leaves where its stream breaks off.
use sgard.Base.{ℕ, ◌≡◌, refl, true, Option, List, [], ◌∷◌, Text, Result, ok, err, Error, All}
use sgard.Paths.Clean.{IsComponent, render}
use sgard.Host.{Host}
use sgard.Host.Laws.{DiskLaws}
use sgard.Store
use sgard.Garden.{Repo}
use sgard.Sync.Proto.{BlobChunk}
use sgard.Sync.Chunks.{receive}
use sgard.Sync.Chunks.Keeping.{receive_keeps, receive-garden, receive-err}
use sgard.Sync.Server.{Server, push_blobs, apply_pending}
use sgard.Sync.Client.Filling.{Has, write_and_verify-Has}

module _ (h : Host) where
  broken :
      (P : Repo h → Type 0) (s : Server h) (out : Result ℕ × Repo h)
      → ((n : ℕ) (t : Repo h) → out ≡ (ok n, t) → ⊥)
      → P out.1
      → (let r : Result ℕ × Server h = elim out.0 [
        | err x ↦ (err x, record s { repo = out.1 })
        | ok count ↦ apply_pending h count (record s { repo = out.1 })
      ] in
          (y : Error) × (r.0 ≡ err y) × P r.1.repo × (r.1.pending ≡ s.pending))
  broken P s (err x, t) never held = (x, refl, held, refl)
  broken P s (ok n, t) never held = absurd (never n t refl)

  -- It fails, and leaves the garden and the manifest that waits.
  pub push_blobs-broken :
      (ms : List (Option BlobChunk)) (x : Error) (s : Server h)
      → (y : Error) × ((push_blobs h ms (err x) s).0 ≡ err y)
        × ((push_blobs h ms (err x) s).1.repo.garden ≡ s.repo.garden)
        × ((push_blobs h ms (err x) s).1.pending ≡ s.pending)
  unfolding push_blobs
  push_blobs-broken ms x s =
      broken (λ t. t.garden ≡ s.repo.garden) s (receive h ms (err x) _ _ 0 s.repo)
        (λ n t e. receive-err h ms x _ _ 0 n s.repo t e) (receive-garden h ms (err x) s.repo)

  module _ (laws : DiskLaws h) (t : Text) (ts : List Text) (rooted : All IsComponent (t ∷ ts)) where
    broken-Has :
        (ms : List (Option BlobChunk)) (x : Error) (s : Server h) (j : Text)
        → Has h laws t ts rooted j s.repo
        → Has h laws t ts rooted j (push_blobs h ms (err x) s).1.repo
    unfolding push_blobs
    broken-Has ms x s j has =
        let (_, _, held, _) =
          broken (Has h laws t ts rooted j) s (receive h ms (err x) _ _ 0 s.repo)
            (λ n t e. receive-err h ms x _ _ 0 n s.repo t e)
            (receive_keeps (Has h laws t ts rooted j)
              (λ hash bytes u before. write_and_verify-Has h laws t ts rooted j hash bytes u before)
              ms (err x) [] [] 0 s.repo has) in
        held

    -- On a disk with the laws of `DiskLaws`, for a server whose repository lies at a rooted path of
    -- ordinary components: a `PushBlobs` whose stream breaks off with an error, whatever it brought
    -- before and whatever was written of it, fails; the garden of the server, its manifest among it,
    -- and the manifest that waits are as they were, and every blob that the store had is there.
    pub push_blobs_broken :
        (ms : List (Option BlobChunk)) (x : Error) (s : Server h)
        → s.repo.garden.root ≡ render (t ∷ ts)
        → (y : Error) × ((push_blobs h ms (err x) s).0 ≡ err y)
          × ((push_blobs h ms (err x) s).1.repo.garden ≡ s.repo.garden)
          × ((push_blobs h ms (err x) s).1.pending ≡ s.pending)
          × ((j : Text)
              → Store.exists h (render (t ∷ ts)) j s.repo.disk ≡ true
              → Store.exists h (render (t ∷ ts)) j (push_blobs h ms (err x) s).1.repo.disk ≡ true)
    unfolding Has
    push_blobs_broken ms x s at =
        let (y, fails, garden, pending) = push_blobs-broken ms x s in
        (y, fails, garden, pending, λ j there. (broken-Has ms x s j (at, there)).1)
