-- ===== src/Store/Growing.antt =====
-- What a write adds to the store, and that it takes nothing away.
use sgard.Base.{
  ◌≡◌, ◌∙◌, sym, ap, true, List, ◌∷◌, Text, Bytes, ◌==◌, eq_iff, is_ok, ok, All, Bool-cases, inl,
  inr, arith, subst,
}
use sgard.Paths.Clean.{IsComponent, render}
use sgard.Host.{Host}
use sgard.Host.Laws.{DiskLaws}
use sgard.Store.{valid_hash, blob_path, hash_of, write, exists}
use sgard.Store.Laws.{hash_of-valid_hash}
use sgard.Store.Blobs.{write-other, write_there, write_absent, store_new_read}

pub exists-valid_hash :
    (h : Host) (root j : Text) (s : h.State) → exists h root j s ≡ true → valid_hash j ≡ true
unfolding exists
exists-valid_hash h root j s e = ground arith

pub exists-stat :
    (h : Host) (root j : Text) (s : h.State)
    → exists h root j s ≡ true
    → is_ok (h.stat (blob_path root j) s) ≡ true
unfolding exists
exists-stat h root j s e = ground arith

module _ (h : Host) (laws : DiskLaws h) (t : Text) (ts : List Text)
    (rooted : All IsComponent (t ∷ ts)) where
  abbrev root : Text
  root = render (t ∷ ts)

  -- A write that succeeds returns the hash of its bytes, and the blob is then there.
  pub write-exists :
      (bytes : Bytes) (s s' : h.State) (k : Text)
      → write h root bytes s ≡ (ok k, s')
      → (k ≡ hash_of h bytes) × (exists h root (hash_of h bytes) s' ≡ true)
  unfolding exists
  write-exists bytes s s' k e =
      rw (hash_of-valid_hash h laws bytes)
        (elim (Bool-cases (is_ok (h.stat (blob_path root (hash_of h bytes)) s))) [
          | inl there ↦
              let out = sym (write_there h laws t ts rooted bytes s there) ∙ e in
              (
                ground arith,
                subst (λ (w : h.State). is_ok (h.stat (blob_path root (hash_of h bytes)) w) ≡ true)
                    (ap (λ r. r.1) out) there,
              )
          | inr absent ↦
              let (q, r) =
                store_new_read h laws t ts rooted bytes s s' k
                  (sym (write_absent h laws t ts rooted bytes s absent) ∙ e) in
              (q, laws.stat_read (blob_path root (hash_of h bytes)) s' bytes r)
        ])

  -- A write takes no blob away, whether it succeeds or fails.
  pub exists-write :
      (bytes : Bytes) (s : h.State) (j : Text)
      → exists h root j s ≡ true
      → exists h root j (write h root bytes s).1 ≡ true
  exists-write bytes s j e = elim (Bool-cases (hash_of h bytes == j)) [
    | inl q ↦
        rw
          (write_there h laws t ts rooted bytes s (
            exists-stat h root (hash_of h bytes) s
              (subst (λ i. exists h root i s ≡ true) (sym ((eq_iff (hash_of h bytes) j).0 q)) e)))
          e
    | inr n ↦
        (write-other h laws t ts rooted bytes s j (exists-valid_hash h root j s e)
          (λ same. cc (n, (eq_iff (hash_of h bytes) j).1 same))).0
        ∙ e
  ]
