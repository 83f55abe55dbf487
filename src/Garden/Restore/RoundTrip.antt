-- ===== src/Garden/Restore/RoundTrip.antt =====
-- What `Add` stores of a file is what `Restore` writes of its entry.
use sgard.Base.{
  ◌≡◌, refl, ◌∙◌, ap, Bool, true, false, Option, none, some, List, ◌∷◌, Text, Bytes, Result, ok,
  err, Error, All, arith, if◌then◌else◌,
}
use sgard.Paths.Clean.{IsComponent, render}
use sgard.Manifest.{Entry}
use sgard.Host.{Host}
use sgard.Host.Laws.{SameAt, DiskLaws}
use sgard.Store
use sgard.Store.{valid_hash}
use sgard.Store.Blobs.{IsIntact, read-write}
use sgard.Garden.{Garden}
use sgard.Garden.Crypt.{encrypt_blob, decrypt_blob}
use sgard.Garden.Crypt.RoundTrip.{CipherLaws, seal_random-eq-ok, decrypt_blob-encrypt_blob}
use sgard.Garden.Add.{store_file}
use sgard.Garden.Restore.{restored_bytes}

module _ (h : Host) (laws : DiskLaws h) (t : Text) (ts : List Text)
    (rooted : All IsComponent (t ∷ ts)) where
  abbrev root : Text
  root = render (t ∷ ts)

  -- A blob in the store that has the hash of the bytes is the bytes.
  abbrev pub NoCollision : Bytes → h.State → Type 0
  NoCollision c s =
      (b : Bytes)
      → Store.read h root (Store.hash_of h c) s ≡ ok b
      → Store.hash_of h b ≡ Store.hash_of h c
      → b ≡ c

  -- The bytes that the store is to hold of a file: the file's own, or those that they are encrypted
  -- to.
  abbrev pub to_store : Option Bytes → Bool → Bytes → h.State → Result Bytes
  to_store dek encrypt bytes s = if encrypt then (encrypt_blob h dek bytes s).0 else ok bytes

  store_plain :
      (dek : Option Bytes) (path : Text) (e e' : Entry) (bytes : Bytes) (s s' : h.State)
      → h.read_file path s ≡ ok bytes
      → store_file h dek root path false e s ≡ (ok e', s')
      → (out : Result Text × h.State) → Store.write h root bytes s ≡ out
      → (k : Text) × (out ≡ (ok k, s')) × (e' ≡ record e { hash = k })
  unfolding store_file
  store_plain dek path e e' bytes s s' there ran (err x, u) w =
      absurd (ground (arith, there, ran, w))
  store_plain dek path e e' bytes s s' there ran (ok k, u) w =
      (k, ground (arith, there, ran, w), ground (arith, there, ran, w))

  sealed_err :
      (dek : Option Bytes) (path : Text) (e e' : Entry) (bytes : Bytes) (s s' u : h.State)
      (x : Error)
      → h.read_file path s ≡ ok bytes
      → store_file h dek root path true e s ≡ (ok e', s')
      → encrypt_blob h dek bytes s ≡ (err x, u)
      → ⊥
  unfolding store_file
  sealed_err dek path e e' bytes s s' u x there ran w = ground (arith, there, ran, w)

  sealed_ok :
      (dek : Option Bytes) (path : Text) (e e' : Entry) (bytes ct : Bytes) (s s' u : h.State)
      → h.read_file path s ≡ ok bytes
      → store_file h dek root path true e s ≡ (ok e', s')
      → encrypt_blob h dek bytes s ≡ (ok ct, u)
      → (out : Result Text × h.State) → Store.write h root ct u ≡ out
      → (k : Text) × (out ≡ (ok k, s')) × (e'.hash ≡ k) × (e'.encrypted ≡ true)
  unfolding store_file
  sealed_ok dek path e e' bytes ct s s' u there ran w (err x, v) w' =
      absurd (ground (arith, there, ran, w, w'))
  sealed_ok dek path e e' bytes ct s s' u there ran w (ok k, v) w' = (
    k,
    ground (arith, there, ran, w, w'),
    ground (arith, there, ran, w, w'),
    ground (arith, there, ran, w, w'),
  )

  store_sealed :
      (dek : Option Bytes) (path : Text) (e e' : Entry) (bytes : Bytes) (s s' : h.State)
      → h.read_file path s ≡ ok bytes
      → store_file h dek root path true e s ≡ (ok e', s')
      → (out : Result Bytes × h.State) → encrypt_blob h dek bytes s ≡ out
      → (ct : Bytes) × (u : h.State) × (out ≡ (ok ct, u))
        × (k : Text) × (Store.write h root ct u ≡ (ok k, s'))
        × (e'.hash ≡ k)
        × (e'.encrypted ≡ true)
  store_sealed dek path e e' bytes s s' there ran (err x, u) w =
      absurd (sealed_err dek path e e' bytes s s' u x there ran w)
  store_sealed dek path e e' bytes s s' there ran (ok ct, u) w =
      let (k, w', hash, sealed) =
        sealed_ok dek path e e' bytes ct s s' u there ran w (Store.write h root ct u) refl in
      (ct, u, refl, k, w', hash, sealed)

  module _ (laws' : CipherLaws h) (g : Garden) (at_root : g.root ≡ root) where
    restored :
        (e : Entry) (bytes ct : Bytes) (s : h.State)
        → Store.read h root e.hash s ≡ ok ct
        → (if e.encrypted then decrypt_blob h g.dek ct else ok ct) ≡ ok bytes
        → restored_bytes h g e s ≡ ok bytes
    unfolding restored_bytes
    restored e bytes ct s r d = ground (arith, at_root, r, d)

    encrypt_same :
        (dek : Option Bytes) (bytes ct : Bytes) (s u : h.State)
        → encrypt_blob h dek bytes s ≡ (ok ct, u)
        → (q : Text) → SameAt h q s u
    unfolding encrypt_blob
    encrypt_same none bytes ct s u ran q = absurd (ground (arith, ran))
    encrypt_same (some dek) bytes ct s u ran q =
        let (nonce, v, drawn, _, _, end) = seal_random-eq-ok h laws' dek bytes ct s u ran in
        rw end (rw drawn at (laws.rand_frame 24 s q))

    same_IsIntact :
        (s u : h.State)
        → ((q : Text) → SameAt h q s u)
        → IsIntact h laws t ts rooted s
        → IsIntact h laws t ts rooted u
    same_IsIntact s u same intact j v there =
        let p = Store.blob_path root j in
        let (b, r, q) = intact j v (rw (same p).stat at there) in (b, (same p).read_file ∙ r, q)

    same_NoCollision :
        (c : Bytes) (s u : h.State)
        → ((q : Text) → SameAt h q s u)
        → NoCollision c s
        → NoCollision c u
    unfolding Store.read
    same_NoCollision c s u same apart b r =
        apart b (rw ((same (Store.blob_path root (Store.hash_of h c))).read_file) at r)

    -- On a disk with the laws of `DiskLaws` and an intact store, for an entry that begins
    -- unencrypted, where the cipher opens what it sealed and the store holds no other bytes with the
    -- hash of the bytes that are stored: what `addEntry`
    -- stores of a file, encrypted or not, is read back by `restoreFile` from the entry that it
    -- made.
    pub restored_bytes-store_file :
        (path : Text) (encrypt : Bool) (e e' : Entry) (bytes : Bytes) (s s' : h.State)
        → IsIntact h laws t ts rooted s
        → ((c : Bytes) → to_store g.dek encrypt bytes s ≡ ok c → NoCollision c s)
        → e.encrypted ≡ false
        → h.read_file path s ≡ ok bytes
        → store_file h g.dek g.root path encrypt e s ≡ (ok e', s')
        → restored_bytes h g e' s' ≡ ok bytes
    restored_bytes-store_file path false e e' bytes s s' intact apart plain there ran =
        let (k, w, made) =
          store_plain g.dek path e e' bytes s s' there (rw at_root at ran)
            (Store.write h root bytes s) refl in
        let (_, back) = read-write h laws t ts rooted bytes s s' k intact (apart bytes refl) w in
        restored e' bytes bytes s' (rw made back)
          (rw (ap (λ (x : Entry). x.encrypted) made ∙ plain) refl)
    restored_bytes-store_file path true e e' bytes s s' intact apart plain there ran =
        let (ct, u, w, k, w', hash, sealed) =
          store_sealed g.dek path e e' bytes s s' there (rw at_root at ran)
            (encrypt_blob h g.dek bytes s) refl in
        let same = encrypt_same g.dek bytes ct s u w in
        let (_, back) =
          read-write h laws t ts rooted ct u s' k (same_IsIntact s u same intact)
            (same_NoCollision ct s u same (apart ct (ap (λ (r : Result Bytes × h.State). r.0) w)))
            w' in
        restored e' bytes ct s' (rw hash back)
          (rw (sealed, decrypt_blob-encrypt_blob h laws' g.dek bytes ct s u w) refl)
