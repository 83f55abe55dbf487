-- ===== src/Garden/Maintain/Verifying.antt =====
-- What the results of `Verify` say of the store.
use sgard.Base.{
  ◌≡◌, ◌≢◌, ◌↔◌, ◌⊎◌, inl, inr, refl, Bool, true, ◌&&◌, List, [], ◌∷◌, Text, Bytes, ◌==◌, eq_iff,
  Result, ok, err, All, arith, Bool-cases,
}
use sgard.Manifest.{Entry, file_type}
use sgard.Host.{Host}
use sgard.Store
use sgard.Garden.{Repo, files}
use sgard.Garden.Maintain.{VerifyResult, verify_entry, verify_loop, verify}

unfoldable pub all_good : List VerifyResult → Bool
all_good [] = true
all_good (v ∷ vs) = v.is_good && all_good vs

module _ (h : Host) where
  -- The store has the blob of the hash of an entry, with bytes of that hash.
  pub record HasBlob (root : Text) (s : h.State) (e : Entry) : Type 0 where
    pub there : Store.exists h root e.hash s ≡ true
    pub bytes : Bytes
    pub reads : Store.read h root e.hash s ≡ ok bytes
    pub hashes : Store.hash_of h bytes ≡ e.hash

  -- An entry is no file, or its blob is there.
  abbrev pub IsSound : Text → h.State → Entry → Type 0
  IsSound root s e = (e.type ≢ file_type) ⊎ HasBlob root s e

  good_by :
      (root : Text) (e : Entry) (s : h.State) (v : VerifyResult) (r : Result Bytes)
      → Store.read h root e.hash s ≡ r
      → verify_entry h root e s ≡ ok v
      → v.is_good ≡ true
      → HasBlob root s e
  unfolding verify_entry
  good_by root e s v (err x) r ran good = absurd (ground (arith, r, ran, good))
  good_by root e s v (ok bytes) r ran good = record {
    there = ground (arith, r, ran, good);
    bytes = bytes;
    reads = r;
    hashes = ground (arith, r, ran, good, eq_iff (Store.hash_of h bytes) e.hash);
  }

  entry_good :
      (root : Text) (e : Entry) (s : h.State) (v : VerifyResult)
      → verify_entry h root e s ≡ ok v
      → HasBlob root s e
      → v.is_good ≡ true
  unfolding verify_entry
  entry_good root e s v ran b =
      ground (arith, ran, b.there, b.reads, b.hashes, eq_iff (Store.hash_of h b.bytes) e.hash)

  verify_next :
      (root : Text) (e : Entry) (es : List Entry) (s : h.State) (vs : List VerifyResult)
      → (e.type == file_type) ≡ true
      → verify_loop h root (e ∷ es) s ≡ ok vs
      → (v : VerifyResult) × (vs' : List VerifyResult) × (verify_entry h root e s ≡ ok v)
        × (verify_loop h root es s ≡ ok vs')
        × (vs ≡ v ∷ vs')
  unfolding verify_loop
  verify_next root e es s vs f ran = ground arith

  all-IsSound :
      (root : Text) (es : List Entry) (s : h.State) (vs : List VerifyResult)
      → verify_loop h root es s ≡ ok vs
      → all_good vs ≡ true
      → All (IsSound root s) es
  unfolding verify_loop all_good
  all-IsSound root [] s vs ran good = tt
  all-IsSound root (e ∷ es) s vs ran good = elim (Bool-cases (e.type == file_type)) [
    | inr n ↦ (
      inl (λ q. cc (n, (eq_iff e.type file_type).1 q)),
      all-IsSound root es s vs (ground (arith, n, ran)) good,
    )
    | inl f ↦
        let (v, vs', head, rest, split) = verify_next root e es s vs f ran in
        (
          inr (
              good_by root e s v (Store.read h root e.hash s) refl head
                (ground (arith, good, split))),
          all-IsSound root es s vs' rest (ground (arith, good, split)),
        )
  ]

  blob_of :
      (root : Text) (e : Entry) (s : h.State)
      → e.type ≡ file_type
      → IsSound root s e
      → HasBlob root s e
  blob_of root e s f (inl n) = absurd (n f)
  blob_of root e s f (inr b) = b

  IsSound-all :
      (root : Text) (es : List Entry) (s : h.State) (vs : List VerifyResult)
      → verify_loop h root es s ≡ ok vs
      → All (IsSound root s) es
      → all_good vs ≡ true
  unfolding verify_loop all_good
  IsSound-all root [] s vs ran sound = ground arith
  IsSound-all root (e ∷ es) s vs ran sound = elim (Bool-cases (e.type == file_type)) [
    | inr n ↦ IsSound-all root es s vs (ground (arith, n, ran)) sound.1
    | inl f ↦
        let (v, vs', head, rest, split) = verify_next root e es s vs f ran in
        ground (
          arith,
          split,
          IsSound-all root es s vs' rest sound.1,
          entry_good root e s v head (blob_of root e s ((eq_iff e.type file_type).0 f) sound.0),
        )
  ]

  -- `Verify`, where it returns results: all are good exactly when every tracked file has its blob in
  -- the store, with bytes of the hash that the manifest has.
  pub verify_iff :
      (s : Repo h) (vs : List VerifyResult)
      → verify h s ≡ ok vs
      → (all_good vs ≡ true) ↔ All (IsSound s.garden.root s.disk) (files s)
  unfolding verify
  verify_iff s vs ran = (
    all-IsSound s.garden.root (files s) s.disk vs ran,
    IsSound-all s.garden.root (files s) s.disk vs ran,
  )
