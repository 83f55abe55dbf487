-- ===== src/Store/Blobs.antt =====
-- The store as a map from hashes to blobs: what each operation does at every hash.
use sgard.Base.{
  ◌≡◌, ◌≢◌, refl, ◌∙◌, sym, ap, true, false, List, ◌∷◌, ◌++◌, Text, Bytes, codes, ◌==◌, eq_iff,
  has_prefix, is_ok, Result, ok, err, Exec, pure, ◌>>◌, All, Bool-cases, inl, inr, arith,
  bind_keeps, >>=-eq-ok, subst,
}
use sgard.Paths.{slash, dir}
use sgard.Paths.Clean.{IsComponent, render}
use sgard.Host.{Host}
use sgard.Host.Atomic.{write_atomically}
use sgard.Host.Laws.{SameAt, SameAt-trans, DiskLaws}
use sgard.Store.{valid_hash, blob_path, hash_of, write, read, exists, delete}
use sgard.Store.Places.{blob_paths_apart, blob_dir_apart, temp_apart}
use sgard.Store.Laws.{hash_of-valid_hash, write_atomically_frame, write_atomically-read}
use sgard.Store.Failures.{FailedSame, failed_continue, failed_pure, write_atomically_failed}

module _ (h : Host) (laws : DiskLaws h) (t : Text) (ts : List Text)
    (rooted : All IsComponent (t ∷ ts)) where
  abbrev pub root : Text
  root = render (t ∷ ts)

  abbrev pub at : Text → Text
  at hash = blob_path root hash

  -- Every blob that is there can be read, and its bytes have its hash.
  abbrev pub IsIntact : h.State → Type 0
  IsIntact s =
      (j : Text)
      → valid_hash j ≡ true
      → is_ok (h.stat (at j) s) ≡ true
      → (b : Bytes) × (h.read_file (at j) s ≡ ok b) × (hash_of h b ≡ j)

  -- The steps of `Write` where the blob is not there
  abbrev pub store_new : Bytes → Exec h.State Text
  store_new bytes = do
    h.mkdir_all (dir (at (hash_of h bytes))) 0o755
    write_atomically h (codes ".blob-*") (at (hash_of h bytes)) bytes
    pure (hash_of h bytes)

  temps :
      (bytes : Bytes) (j : Text)
      → valid_hash j ≡ true
      → (r : Text)
      → has_prefix (dir (at (hash_of h bytes)) ++ (slash ∷ (codes ".blob-" ++ r))) (at j) ≡ false
  temps bytes j v r =
      temp_apart t ts rooted (hash_of h bytes) j _ r (hash_of-valid_hash h laws bytes) v refl

  made_dir :
      (bytes : Bytes) (s : h.State) (j : Text)
      → valid_hash j ≡ true
      → SameAt h (at j) s (h.mkdir_all (dir (at (hash_of h bytes))) 0o755 s).1
  made_dir bytes s j v =
      laws.mkdir_all_frame _ 0o755 s (at j)
        (blob_dir_apart t ts rooted (hash_of h bytes) j (hash_of-valid_hash h laws bytes) v)

  store_new_frame :
      (bytes : Bytes) (s : h.State) (j : Text)
      → valid_hash j ≡ true
      → hash_of h bytes ≢ j
      → SameAt h (at j) s (store_new bytes s).1
  store_new_frame bytes s j v ne =
      bind_keeps (SameAt h (at j) s) (h.mkdir_all _ 0o755) _ s (made_dir bytes s j v) λ _ u same.
        bind_keeps (SameAt h (at j) s) (write_atomically h (codes ".blob-*") _ bytes)
          (λ _. pure (hash_of h bytes)) u
          (SameAt-trans same (
            write_atomically_frame h laws (codes ".blob-") (at (hash_of h bytes)) (at j) bytes u
              (blob_paths_apart t ts rooted (hash_of h bytes) j (hash_of-valid_hash h laws bytes) v
                ne)
              (temps bytes j v)))
          (λ _ w same'. same')

  store_new_failed :
      (bytes : Bytes) (s : h.State) (j : Text)
      → valid_hash j ≡ true
      → FailedSame h (at j) s (store_new bytes s)
  store_new_failed bytes s j v =
      failed_continue h (at j) s _ (h.mkdir_all (dir (at (hash_of h bytes))) 0o755 s)
        (made_dir bytes s j v)
        λ _ u same.
          failed_pure h (at j) s (hash_of h bytes)
            (write_atomically h (codes ".blob-*") (at (hash_of h bytes)) bytes u)
            (write_atomically_failed h laws (codes ".blob-") (at (hash_of h bytes)) (at j) bytes s
              (temps bytes j v) u same)

  pub store_new_read :
      (bytes : Bytes) (s s' : h.State) (k : Text)
      → store_new bytes s ≡ (ok k, s')
      → (k ≡ hash_of h bytes) × (h.read_file (at (hash_of h bytes)) s' ≡ ok bytes)
  store_new_read bytes s s' k e =
      let (_, u, _, e₁) = >>=-eq-ok (h.mkdir_all _ 0o755) _ s k s' e in
      let (_, v, wrote, e₂) =
        >>=-eq-ok (write_atomically h (codes ".blob-*") _ bytes) (λ _. pure (hash_of h bytes)) u k
          s' e₁ in
      (
        ground arith,
        ap (λ w. h.read_file (at (hash_of h bytes)) w) (sym (ap (λ r. r.1) e₂))
            ∙ write_atomically-read h laws _ _ bytes u v wrote,
      )

  -- `Write`, by the test of the path
  pub write_there :
      (bytes : Bytes) (s : h.State)
      → is_ok (h.stat (at (hash_of h bytes)) s) ≡ true
      → write h root bytes s ≡ (ok (hash_of h bytes), s)
  unfolding write
  write_there bytes s e = ground arith

  pub write_absent :
      (bytes : Bytes) (s : h.State)
      → is_ok (h.stat (at (hash_of h bytes)) s) ≡ false
      → write h root bytes s ≡ store_new bytes s
  unfolding write
  write_absent bytes s e = ground arith

  -- On a disk with the laws of `DiskLaws`, `Write` of bytes leaves every other blob as it was,
  -- whether it succeeds or fails.
  pub write-other :
      (bytes : Bytes) (s : h.State) (j : Text)
      → valid_hash j ≡ true
      → hash_of h bytes ≢ j
      → (exists h root j (write h root bytes s).1 ≡ exists h root j s)
        × (read h root j (write h root bytes s).1 ≡ read h root j s)
  unfolding exists read
  write-other bytes s j v ne = elim (Bool-cases (is_ok (h.stat (at (hash_of h bytes)) s))) [
    | inl e ↦ rw (write_there bytes s e) (refl, refl)
    | inr e ↦ rw (write_absent bytes s e) (
        let same = store_new_frame bytes s j v ne in rw (v, same.stat, same.read_file) (refl, refl))
  ]

  read-at :
      (bytes : Bytes) (s : h.State) (k : Text)
      → k ≡ hash_of h bytes
      → h.read_file (at (hash_of h bytes)) s ≡ ok bytes
      → (k ≡ hash_of h bytes) × (read h root k s ≡ ok bytes)
  unfolding read
  read-at bytes s k e r = (e, rw (e, hash_of-valid_hash h laws bytes) r)

  read_there :
      (bytes : Bytes) (s : h.State)
      → IsIntact s
      → ((b : Bytes)
          → read h root (hash_of h bytes) s ≡ ok b
          → hash_of h b ≡ hash_of h bytes
          → b ≡ bytes)
      → is_ok (h.stat (at (hash_of h bytes)) s) ≡ true
      → h.read_file (at (hash_of h bytes)) s ≡ ok bytes
  unfolding read
  read_there bytes s intact same there =
      let (b, r, q) = intact (hash_of h bytes) (hash_of-valid_hash h laws bytes) there in
      r ∙ ap ok (same b (rw (hash_of-valid_hash h laws bytes) r) q)

  -- On a disk with the laws of `DiskLaws`: from an intact store, a `Write` that succeeds returns
  -- the hash of its bytes, and `Read` of that hash then returns the bytes, unless the store already
  -- held other bytes with the same hash.
  pub read-write :
      (bytes : Bytes) (s s' : h.State) (k : Text)
      → IsIntact s
      → ((b : Bytes)
          → read h root (hash_of h bytes) s ≡ ok b
          → hash_of h b ≡ hash_of h bytes
          → b ≡ bytes)
      → write h root bytes s ≡ (ok k, s')
      → (k ≡ hash_of h bytes) × (read h root k s' ≡ ok bytes)
  read-write bytes s s' k intact same e =
      elim (Bool-cases (is_ok (h.stat (at (hash_of h bytes)) s))) [
        | inl there ↦
            let out = sym (write_there bytes s there) ∙ e in
            read-at bytes s' k (ground arith) (
              subst (λ w. h.read_file (at (hash_of h bytes)) w ≡ ok bytes) (ap (λ r. r.1) out)
                (read_there bytes s intact same there))
        | inr absent ↦
            let (q, r) = store_new_read bytes s s' k (sym (write_absent bytes s absent) ∙ e) in
            read-at bytes s' k q r
      ]

  abbrev IntactAt : Text → h.State → Type 0
  IntactAt j s =
      is_ok (h.stat (at j) s) ≡ true
      → (b : Bytes) × (h.read_file (at j) s ≡ ok b) × (hash_of h b ≡ j)

  same-IntactAt : (j : Text) (s s' : h.State) → SameAt h (at j) s s' → IntactAt j s → IntactAt j s'
  same-IntactAt j s s' same intact = rw (same.stat, same.read_file) intact

  new-IntactAt :
      (bytes : Bytes) (s : h.State) (j : Text) (out : Result Text × h.State)
      → valid_hash j ≡ true
      → hash_of h bytes ≡ j
      → store_new bytes s ≡ out
      → IntactAt j s
      → IntactAt j out.1
  new-IntactAt bytes s j (ok k, s') v q e intact = λ there.
      (bytes, subst (λ i. h.read_file (at i) s' ≡ ok bytes) q (store_new_read bytes s s' k e).1, q)
  new-IntactAt bytes s j (err x, s') v q e intact =
      same-IntactAt j s s'
        (subst (λ (out : Result Text × h.State). FailedSame h (at j) s out) e
          (store_new_failed bytes s j v))
        intact

  -- On a disk with the laws of `DiskLaws`, `Write` keeps the store intact, whether it succeeds or
  -- fails.
  pub write-IsIntact :
      (bytes : Bytes) (s : h.State) → IsIntact s → IsIntact (write h root bytes s).1
  write-IsIntact bytes s intact j v = elim (Bool-cases (is_ok (h.stat (at (hash_of h bytes)) s))) [
    | inl there ↦ rw (write_there bytes s there) (intact j v)
    | inr absent ↦ rw (write_absent bytes s absent) (elim (Bool-cases (hash_of h bytes == j)) [
      | inl q ↦ new-IntactAt bytes s j (store_new bytes s) v ((eq_iff _ j).0 q) refl (intact j v)
      | inr n ↦
          same-IntactAt j s _
            (store_new_frame bytes s j v (λ q. cc (n, (eq_iff (hash_of h bytes) j).1 q)))
            (intact j v)
    ])
  ]

  -- On a disk with the laws of `DiskLaws`, `Delete` that succeeds takes the blob away.
  pub exists-delete :
      (hash : Text) (s s' : h.State)
      → delete h root hash s ≡ (ok tt, s')
      → exists h root hash s' ≡ false
  unfolding delete exists
  exists-delete hash s s' e = elim (Bool-cases (valid_hash hash)) [
    | inl v ↦ rw v (laws.remove_gone (at hash) s s' (rw v at e))
    | inr n ↦ rw n
  ]

  -- On a disk with the laws of `DiskLaws`, `Delete` leaves every other blob as it was, whether it
  -- succeeds or fails.
  pub delete-other :
      (hash : Text) (s : h.State) (j : Text)
      → valid_hash j ≡ true
      → hash ≢ j
      → (exists h root j (delete h root hash s).1 ≡ exists h root j s)
        × (read h root j (delete h root hash s).1 ≡ read h root j s)
  unfolding delete exists read
  delete-other hash s j v ne = elim (Bool-cases (valid_hash hash)) [
    | inl w ↦
        (let same =
            laws.remove_frame (at hash) s (at j) (blob_paths_apart t ts rooted hash j w v ne) in
          rw (w, v, same.stat, same.read_file) (refl, refl))
    | inr n ↦ rw (n, v) (refl, refl)
  ]
