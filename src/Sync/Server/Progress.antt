-- ===== src/Sync/Server/Progress.antt =====
-- What any sequence of calls does to the manifest of the server.
use sgard.Base.{
  and_then, ◌%◌, ◌^◌, ℕ, ◌≡◌, ◌≤◌, ◌<◌, refl, sym, subst, Option, none, some, List, Text, ltb, [],
  Bool-cases, inl, inr, Result, ok, err, arith,
}
use sgard.Manifest.{Manifest}
use sgard.Manifest.Disk.{save}
use sgard.Host.{Host}
use sgard.Garden.{Garden, Repo, replace_manifest, with_manifest, files}
use sgard.Garden.Maintain
use sgard.Garden.Maintain.{referenced, prune_loop, pruned}
use sgard.Store
use sgard.Sync.Proto.{Times, PbManifest, BlobChunk}
use sgard.Sync.Convert.{proto_to_manifest}
use sgard.Sync.Chunks.{receive}
use sgard.Sync.Chunks.Keeping.{receive-garden}
use sgard.Sync.Server.{Server, new, push_manifest, push_blobs, apply_pending, prune}

-- When the manifest in place was last updated
abbrev pub updated : {h : Host} → Server h → ℕ
updated s = s.repo.garden.manifest.updated

-- The handlers that change the server, one at a time, with any request
pub data Step (h : Host) (times : Times) (s : Server h) : Server h → Type 0 where
  manifest_pushed :
      (request : PbManifest times) → Step h times s (push_manifest h times request s).1
  blobs_pushed :
      (messages : List (Option BlobChunk)) (end : Result (Unit {0}))
      → Step h times s (push_blobs h messages end s).1
  blobs_pruned : Step h times s (prune h s).1

pub data Steps (h : Host) (times : Times) (s : Server h) : Server h → Type 0 where
  start : Steps h times s s
  later : {t u : Server h} → Steps h times s t → Step h times t u → Steps h times s u

-- What waits is newer than what is in place.
abbrev pub Newer : Option Manifest → Manifest → Type 0
Newer none m = Unit
Newer (some p) m = m.updated < p.updated

abbrev pub IsOrdered : {h : Host} → Server h → Type 0
IsOrdered s = Newer s.pending s.repo.garden.manifest

-- The one is in order where the other is, and not behind it.
unfoldable Onward : {h : Host} → Server h → Server h → Type 0
Onward s t = IsOrdered t × updated s ≤ updated t

module _ (h : Host) where
  Onward-same :
      (s : Server h) (repo : Repo h)
      → repo.garden ≡ s.repo.garden
      → IsOrdered s
      → Onward s (record s { repo = repo })
  unfolding Onward
  Onward-same s repo same ordered = (
    subst (λ (g : Garden). Newer s.pending g.manifest) (sym same) ordered,
    subst (λ (g : Garden). updated s ≤ g.manifest.updated) (sym same) (omega arith),
  )

  replaced :
      (m : Manifest) (s : Repo h) (out : Result (Unit {0}) × h.State) (count : ℕ)
      → Newer (some m) s.garden.manifest
      → let (r, repo) : Result (Unit {0}) × Repo h = elim out.0 [
        | ok _ ↦ (ok tt, with_manifest m (record s { disk = out.1 }))
        | err e ↦ (err e, record s { disk = out.1 })
      ] in
        let t : Result ℕ × Server h = elim r [
          | err x ↦ (err x, record { repo = repo; pending = some m })
          | ok _ ↦ (ok count, record { repo = repo; pending = none })
        ] in
        Onward (record { repo = s; pending = some m }) t.1
  unfolding Onward
  replaced m s (ok _, d) count newer = (tt, omega arith)
  replaced m s (err x, d) count newer = (newer, omega arith)

  apply_pending-Onward :
      (count : ℕ) (repo : Repo h) (p : Option Manifest)
      → Newer p repo.garden.manifest
      → Onward
          (record { repo = repo; pending = p })
          (apply_pending h count (record { repo = repo; pending = p })).1
  unfolding apply_pending replace_manifest Onward
  apply_pending-Onward count repo none ordered = (tt, omega arith)
  apply_pending-Onward count repo (some m) ordered =
      replaced m repo (save h m repo.garden.manifest_path repo.disk) count ordered

  received :
      (s : Server h) (out : Result ℕ × Repo h)
      → out.1.garden ≡ s.repo.garden
      → IsOrdered s
      → let t : Result ℕ × Server h = elim out.0 [
        | err x ↦ (err x, record s { repo = out.1 })
        | ok count ↦ apply_pending h count (record s { repo = out.1 })
      ] in
        Onward s t.1
  unfolding Onward
  received s (err x, repo) same ordered = Onward-same s repo same ordered
  received s (ok count, repo) same ordered =
      let here : Onward s (record s { repo = repo }) = Onward-same s repo same ordered in
      let there : Onward (record s { repo = repo })
          (apply_pending h count (record s { repo = repo })).1 =
        apply_pending-Onward count repo s.pending here.0 in
      (there.0, omega (arith, here.1, there.1))

  push_blobs-Onward :
      (messages : List (Option BlobChunk)) (end : Result (Unit {0})) (s : Server h)
      → IsOrdered s
      → Onward s (push_blobs h messages end s).1
  unfolding push_blobs
  push_blobs-Onward messages end s ordered =
      received s (receive h messages end [] [] 0 s.repo) (receive-garden h messages end s.repo)
        ordered

  push_manifest-Onward :
      (times : Times) (request : PbManifest times) (s : Server h)
      → IsOrdered s
      → Onward s (push_manifest h times request s).1
  unfolding push_manifest Onward
  push_manifest-Onward times request s ordered =
      elim (Bool-cases (ltb (updated s) (proto_to_manifest times request).updated)) [
        | inl newer ↦ rw newer (ground arith, ground arith)
        | inr older ↦
            elim (Bool-cases (ltb (proto_to_manifest times request).updated (updated s))) [
              | inl behind ↦ rw (older, behind) (ordered, omega arith)
              | inr equal ↦ rw (older, equal) (ordered, omega arith)
            ]
      ]

  prune_counted :
      (s : Server h) (out : Result (Unit {0}) × ℕ × h.State)
      → (let s' : Server h = record s { repo = record s.repo { disk = out.2 } } in
          let t : Result ℕ × Server h = elim out.0 [
            | err x ↦ (err x, s')
            | ok _ ↦ (ok (out.1 % 2 ^ 32), s')
          ] in
          t)
        ≡ (
          and_then out.0 (λ _. ok (out.1 % 2 ^ 32)),
          record s { repo = record s.repo { disk = out.2 } },
        )
  prune_counted s (ok _, n, d) = refl
  prune_counted s (err x, n, d) = refl

  prune_listed :
      (s : Server h) (listed : Result (List Text))
      → (let kept = referenced (files s.repo) in
          let t : Result ℕ × Server h = elim listed [
            | err x ↦ (err x, s)
            | ok blobs ↦
                let (r, removed, d) = prune_loop h s.repo.garden.root kept blobs 0 s.repo.disk in
                let s' = record s { repo = record s.repo { disk = d } } in
                elim r [ err x ↦ (err x, s') | ok _ ↦ (ok (removed % 2 ^ 32), s') ]
          ] in
          t)
        ≡ (let (r, n, repo) = pruned h s.repo.garden.root s.repo listed in
            (and_then r (λ _. ok (n % 2 ^ 32)), record s { repo = repo }))
  prune_listed s (err x) = refl
  prune_listed s (ok blobs) =
      prune_counted s
        (prune_loop h s.repo.garden.root (referenced (files s.repo)) blobs 0 s.repo.disk)

  -- The server prunes as a garden prunes by itself: it deletes the same blobs in the same order, and
  -- it fails where the garden fails, with the same error. Its number is that of the garden modulo
  -- 2^32, without the number beside an error; what waits is left alone.
  pub prune-eq-Garden :
      (s : Server h)
      → prune h s ≡ (
          let (r, n, repo) = Maintain.prune h s.repo in
          (and_then r (λ _. ok (n % 2 ^ 32)), record s { repo = repo }))
  unfolding prune Maintain.prune
  prune-eq-Garden s = prune_listed s (Store.list h s.repo.garden.root s.repo.disk)

  pruned-garden :
      (s : Server h) (listed : Result (List Text))
      → (pruned h s.repo.garden.root s.repo listed).2.garden ≡ s.repo.garden
  pruned-garden s (err x) = refl
  pruned-garden s (ok blobs) = refl

  prune-Onward : (s : Server h) → IsOrdered s → Onward s (prune h s).1
  unfolding Maintain.prune
  prune-Onward s ordered = rw (prune-eq-Garden s) (
      Onward-same s (Maintain.prune h s.repo).2
        (pruned-garden s (Store.list h s.repo.garden.root s.repo.disk)) ordered)

  Step-Onward : (times : Times) (s t : Server h) → Step h times s t → IsOrdered s → Onward s t
  Step-Onward times s t (manifest_pushed request) = push_manifest-Onward times request s
  Step-Onward times s t (blobs_pushed messages end) = push_blobs-Onward messages end s
  Step-Onward times s t blobs_pruned = prune-Onward s

  Steps-Onward : (times : Times) (s t : Server h) → Steps h times s t → IsOrdered s → Onward s t
  unfolding Onward
  Steps-Onward times s _ start ordered = (ordered, omega arith)
  Steps-Onward times s u (later {t} before step) ordered =
      let so_far : Onward s t = Steps-Onward times s t before ordered in
      let now : Onward t u = Step-Onward times t u step so_far.0 in
      (now.0, omega (arith, so_far.1, now.1))

-- Whatever is asked of a new server, by however many clients and in whatever order, with streams that
-- break off and writes that fail, its manifest never goes back to one that was updated earlier: after
-- any sequence of steps that leads to `s`, every further sequence leads to a manifest whose time of
-- update is that of `s` or a later one.
pub updated-monotone :
    (h : Host) (times : Times) (repo : Repo h) (s t : Server h)
    → Steps h times (new h repo) s
    → Steps h times s t
    → updated s ≤ updated t
unfolding new Onward
updated-monotone h times repo s t before after =
    (Steps-Onward h times s t after (Steps-Onward h times (new h repo) s before tt).0).1
