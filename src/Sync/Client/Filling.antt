-- ===== src/Sync/Client/Filling.antt =====
-- Blobs that are read in one repository and written to another that misses them are there behind it.
use sgard.Base.{
  All-map, ◌≡◌, ◌≢◌, ◌∙◌, refl, sym, ap, subst, true, false, ◌&&◌, not, Bool-cases, inl, inr, List,
  [], ◌∷◌, Text, Bytes, ◌==◌, eq_iff, if◌then◌else◌, Result, ok, err, and_then, All, arith,
  for_each_keeps, for_each-eq-ok, hash_mismatch,
}
use sgard.Paths.{join}
use sgard.Paths.Clean.{IsComponent, render}
use sgard.Manifest.{Manifest, Entry, file_type}
use sgard.Manifest.Disk.{save}
use sgard.Store
use sgard.Store.Growing.{write-exists, exists-write}
use sgard.Store.Beside.{manifest_name, exists-save}
use sgard.Host.{Host}
use sgard.Host.Laws.{DiskLaws}
use sgard.Garden.{Garden, Repo}
use sgard.Garden.Maintain.{has_blob}
use sgard.Sync.Chunks.{write_and_verify}
use sgard.Sync.Chunks.Keeping.{write_and_verify-disk}
use sgard.Sync.Chunks.Reassembly.{write_all}
use sgard.Sync.Server.{missing_blobs}
use sgard.Sync.Client.Pushing.{read_all}

module _ (h : Host) (root : Text) (s : h.State) where
  -- The store has the blob of every tracked file that has a hash.
  abbrev pub HoldsBlobs : List Entry → Type 0
  HoldsBlobs es =
      All (λ e. e.type ≡ file_type → e.hash ≢ [] → Store.exists h root e.hash s ≡ true) es

  not_missing :
      (e : Entry) (es : List Entry)
      → missing_blobs h root s (e ∷ es) ≡ []
      → (e.type ≡ file_type → e.hash ≢ [] → Store.exists h root e.hash s ≡ true)
        × (missing_blobs h root s es ≡ [])
  unfolding missing_blobs
  not_missing e es none_missing =
      elim (Bool-cases (has_blob e && not (Store.exists h root e.hash s))) [
        | inl wanted ↦ cc (rw wanted at none_missing)
        | inr unwanted ↦ (
          (λ file named.
              ground (arith, unwanted, eq_iff e.type file_type, file, eq_iff e.hash [], named)),
          rw unwanted at none_missing,
        )
      ]

  -- Where no blob is reported as missing, none is.
  pub missing_blobs-HoldsBlobs : (es : List Entry) → missing_blobs h root s es ≡ [] → HoldsBlobs es
  missing_blobs-HoldsBlobs [] nothing = tt
  missing_blobs-HoldsBlobs (e ∷ es) nothing =
      let (there, rest) = not_missing e es nothing in (there, missing_blobs-HoldsBlobs es rest)

module _ (h : Host) where
  verified :
      (s : Repo h) (expected : Text) (out : Result Text × h.State)
      → (elim out.0 as (λ _. Result (Unit {0}) × Repo h) [
        | err x ↦ (err x, record s { disk = out.1 })
        | ok got ↦
            if got == expected
            then (ok tt, record s { disk = out.1 })
            else (err (hash_mismatch expected), record s { disk = out.1 })
      ]).0
        ≡ ok tt
      → out ≡ (ok expected, out.1)
  verified s expected (err x, d) e = cc e
  verified s expected (ok got, d) e = elim (Bool-cases (got == expected)) [
    | inl same ↦ ap (λ k. (ok k, d)) ((eq_iff got expected).0 same)
    | inr differs ↦ absurd (ground (arith, differs, e))
  ]

  -- A blob that has been verified was stored under its hash.
  write_and_verify-eq-ok :
      (expected : Text) (bytes : Bytes) (s : Repo h)
      → (write_and_verify h expected bytes s).0 ≡ ok tt
      → Store.write h s.garden.root bytes s.disk
        ≡ (ok expected, (Store.write h s.garden.root bytes s.disk).1)
  unfolding write_and_verify
  write_and_verify-eq-ok expected bytes s e =
      verified s expected (Store.write h s.garden.root bytes s.disk) e

  module _ (laws : DiskLaws h) (t : Text) (ts : List Text) (rooted : All IsComponent (t ∷ ts)) where
    abbrev root : Text
    root = render (t ∷ ts)

    -- The repository lies at the root, and has the blob.
    unfoldable pub Has : Text → Repo h → Type 0
    Has j s = (s.garden.root ≡ root) × (Store.exists h root j s.disk ≡ true)

    Has-root : (j : Text) (s : Repo h) → Has j s → s.garden.root ≡ root
    unfolding Has
    Has-root j s has = has.0

    pub write_and_verify-Has :
        (j expected : Text) (bytes : Bytes) (s : Repo h)
        → Has j s
        → Has j (write_and_verify h expected bytes s).1
    unfolding Has
    write_and_verify-Has j expected bytes s has =
        subst (Has j) (sym (write_and_verify-disk h expected bytes s)) (
          has.0,
          subst (λ (r : Text). Store.exists h root j (Store.write h r bytes s.disk).1 ≡ true)
              (sym has.0) (exists-write h laws t ts rooted bytes s.disk j has.1),
        )

    write_and_verify-new :
        (expected : Text) (bytes : Bytes) (s s' : Repo h)
        → s.garden.root ≡ root
        → write_and_verify h expected bytes s ≡ (ok tt, s')
        → Has expected s'
    unfolding Has
    write_and_verify-new expected bytes s s' at e =
        let wrote : Store.write h root bytes s.disk
            ≡ (ok expected, (Store.write h root bytes s.disk).1) =
          subst
            (λ (r : Text).
              Store.write h r bytes s.disk ≡ (ok expected, (Store.write h r bytes s.disk).1))
            at (write_and_verify-eq-ok expected bytes s (ap (λ p. p.0) e)) in
        let (name, there) =
          write-exists h laws t ts rooted bytes s.disk (Store.write h root bytes s.disk).1 expected
            wrote in
        subst (Has expected) (sym (write_and_verify-disk h expected bytes s) ∙ ap (λ p. p.1) e) (
          at,
          subst (λ (r : Text). Store.exists h root expected (Store.write h r bytes s.disk).1 ≡ true)
              (sym at)
              (subst (λ j. Store.exists h root j (Store.write h root bytes s.disk).1 ≡ true)
                (sym name) there),
        )

    -- What is there before the blobs are written is there behind them.
    write_all-Has :
        (j : Text) (blobs : List (Text × Bytes)) (s : Repo h)
        → Has j s
        → Has j (write_all h blobs s).1
    unfolding write_all
    write_all-Has j blobs s has =
        for_each_keeps (Has j) (λ b. write_and_verify h b.0 b.1)
          (λ b u held. write_and_verify-Has j b.0 b.1 u held) blobs s has

    -- All the blobs that are written are there.
    write_all-new :
        (blobs : List (Text × Bytes)) (s s' : Repo h)
        → s.garden.root ≡ root
        → write_all h blobs s ≡ (ok tt, s')
        → All (λ b. Has b.0 s') blobs
    unfolding write_all
    write_all-new [] s s' at e = tt
    write_all-new ((hash, bytes) ∷ blobs) s s' at e =
        let (u, first, rest) =
          for_each-eq-ok (λ b. write_and_verify h b.0 b.1) (hash, bytes) blobs s s' e in
        let has : Has hash u = write_and_verify-new hash bytes s u at first in
        (
          subst (Has hash) (ap (λ p. p.1) rest) (write_all-Has hash blobs u has),
          write_all-new blobs u s' (Has-root hash u has) rest,
        )

  -- What holds of all the blobs that were read holds of all the names that were asked for.
  Covers : (Text → Type 0) → List Text → Result (List (Text × Bytes)) → Type 0
  Covers P hashes (ok blobs) = All (λ b. P b.0) blobs → All P hashes
  Covers P hashes (err x) = Unit

  Covers-behind :
      (P : Text → Type 0) (hash : Text) (hashes : List Text) (r : Result Bytes)
      (rest : Result (List (Text × Bytes)))
      → Covers P hashes rest
      → Covers P
          (hash ∷ hashes)
          (and_then r (λ bytes. and_then rest (λ blobs. ok ((hash, bytes) ∷ blobs))))
  unfolding Covers
  Covers-behind P hash hashes (ok bytes) (ok blobs) covers = λ held. (held.0, covers held.1)
  Covers-behind P hash hashes (ok bytes) (err x) covers = tt
  Covers-behind P hash hashes (err x) rest covers = tt

  read_all-Covers :
      (P : Text → Type 0) (g : Repo h) (hashes : List Text) → Covers P hashes (read_all h g hashes)
  unfolding Covers read_all
  read_all-Covers P g [] = λ held. tt
  read_all-Covers P g (hash ∷ hashes) =
      Covers-behind P hash hashes (Store.read h g.garden.root hash g.disk) (read_all h g hashes)
        (read_all-Covers P g hashes)

  has_blob-only : (e : Entry) → has_blob e && false ≡ false
  has_blob-only e = ground arith

  -- What was missing and is there now is not missing any more, where nothing was lost.
  missing_blobs-filled :
      (root : Text) (d d' : h.State) (es : List Entry)
      → ((j : Text) → Store.exists h root j d ≡ true → Store.exists h root j d' ≡ true)
      → All (λ j. Store.exists h root j d' ≡ true) (missing_blobs h root d es)
      → missing_blobs h root d' es ≡ []
  unfolding missing_blobs
  missing_blobs-filled root d d' [] kept filled = refl
  missing_blobs-filled root d d' (e ∷ es) kept filled =
      elim (Bool-cases (has_blob e && not (Store.exists h root e.hash d))) [
        | inl wanted ↦
            let all = rw wanted at filled in
            rw (all.0, has_blob-only e) (missing_blobs-filled root d d' es kept all.1)
        | inr unwanted ↦
            let rest = missing_blobs-filled root d d' es kept (rw unwanted at filled) in
            elim (Bool-cases (has_blob e)) [
              | inl named ↦ rw (named, kept e.hash (ground (arith, named, unwanted))) rest
              | inr unnamed ↦ rw unnamed rest
            ]
      ]

  write_all-garden :
      (blobs : List (Text × Bytes)) (s : Repo h) → (write_all h blobs s).1.garden ≡ s.garden
  unfolding write_all
  write_all-garden blobs s =
      for_each_keeps (λ u. u.garden ≡ s.garden) (λ b. write_and_verify h b.0 b.1)
        (λ b u same. ap (λ (r : Repo h). r.garden) (write_and_verify-disk h b.0 b.1 u) ∙ same) blobs
        s refl

  module _ (laws : DiskLaws h) (t : Text) (ts : List Text) (rooted : All IsComponent (t ∷ ts)) where
    -- The repository lies at the root, with its manifest in manifest.yaml.
    abbrev pub IsPlaced : Garden → Type 0
    IsPlaced g =
        (g.root ≡ render (t ∷ ts)) × (g.manifest_path ≡ join (render (t ∷ ts)) manifest_name)

    -- A repository that has stored what it missed, and then the manifest, misses nothing.
    pub stored_complete :
        (from : Repo h) (m : Manifest) (blobs : List (Text × Bytes)) (s repo : Repo h)
        → IsPlaced s.garden
        → read_all h from (missing_blobs h s.garden.root s.disk m.files) ≡ ok blobs
        → write_all h blobs s ≡ (ok tt, repo)
        → missing_blobs h (render (t ∷ ts)) (save h m repo.garden.manifest_path repo.disk).1 m.files
          ≡ []
    unfolding Covers Has
    stored_complete from m blobs s repo at read wrote =
        missing_blobs-filled place s.disk saved m.files
          (λ j there. kept j (
            subst (Has laws t ts rooted j) now
              (write_all-Has laws t ts rooted j blobs s (at.0, there))))
          filled
      where
        place : Text
        place = render (t ∷ ts)

        now : (write_all h blobs s).1 ≡ repo
        now = ap (λ p. p.1) wrote

        path : repo.garden.manifest_path ≡ join place manifest_name
        path =
            ap (λ (u : Repo h). u.garden.manifest_path) (sym now)
            ∙ ap (λ (g : Garden). g.manifest_path) (write_all-garden blobs s)
            ∙ at.1

        saved : h.State
        saved = (save h m repo.garden.manifest_path repo.disk).1

        kept : (j : Text) → Has laws t ts rooted j repo → Store.exists h place j saved ≡ true
        kept j has =
            subst (λ (p : Text). Store.exists h place j (save h m p repo.disk).1 ≡ true) (sym path)
              (exists-save t ts rooted h laws m repo.disk j has.1)

        filled :
            All (λ j. Store.exists h place j saved ≡ true) (missing_blobs h place s.disk m.files)
        filled =
            subst
              (Covers (λ j. Store.exists h place j saved ≡ true)
                (missing_blobs h place s.disk m.files))
              (subst (λ (r : Text). read_all h from (missing_blobs h r s.disk m.files) ≡ ok blobs)
                at.0 read)
              (read_all-Covers (λ j. Store.exists h place j saved ≡ true) from
                (missing_blobs h place s.disk m.files))
              (All-map (λ b. Has laws t ts rooted b.0 repo)
                (λ b. Store.exists h place b.0 saved ≡ true) (λ b has. kept b.0 has) blobs
                (write_all-new laws t ts rooted blobs s repo at.0 wrote))
