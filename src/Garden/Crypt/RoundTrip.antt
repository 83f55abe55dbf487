-- ===== src/Garden/Crypt/RoundTrip.antt =====
-- What `wrapDEK` and `encryptBlob` seal is opened again by `unwrapDEK` and `decryptBlob`.
use sgard.Base.{
  ℕ, ◌≡◌, true, Option, none, some, ◌++◌, Bytes, eqb, length, length-append, take, drop-append,
  Result, ok, err, arith,
}
use sgard.Base.{[], ◌∷◌, refl, ap}
use sgard.Host.{Host}
use sgard.Garden.Crypt.{seal_random, open_sealed, encrypt_blob, decrypt_blob, nonce_size}

-- What the cipher and the random source promise
pub record CipherLaws (h : Host) : Type 0 where
  pub opens :
      (key nonce plaintext : Bytes)
      → h.unseal key nonce (h.seal key nonce plaintext) ≡ some plaintext
  pub rand_length : (n : ℕ) (s s' : h.State) (bs : Bytes) → h.rand n s ≡ (ok bs, s') → length bs ≡ n

take-append : (xs ys : Bytes) → take (length xs) (xs ++ ys) ≡ xs
take-append [] ys = refl
take-append (x ∷ xs) ys = ap (λ zs. x ∷ zs) (take-append xs ys)

module _ (h : Host) (laws : CipherLaws h) where
  open_parts :
      (key nonce plaintext : Bytes)
      → eqb (length key) 32 ≡ true
      → length nonce ≡ nonce_size
      → open_sealed h key (nonce ++ h.seal key nonce plaintext) ≡ ok plaintext
  unfolding open_sealed
  open_parts key nonce plaintext k n = grind (
    arith,
    k,
    n,
    laws.opens key nonce plaintext,
    length-append nonce (h.seal key nonce plaintext),
    take-append nonce (h.seal key nonce plaintext),
    drop-append nonce (h.seal key nonce plaintext),
  )

  seal_by :
      (key plaintext ct : Bytes) (s s' : h.State) (out : Result Bytes × h.State)
      → h.rand nonce_size s ≡ out
      → seal_random h key plaintext s ≡ (ok ct, s')
      → (nonce : Bytes) × (u : h.State) × (h.rand nonce_size s ≡ (ok nonce, u))
        × (eqb (length key) 32 ≡ true)
        × (ct ≡ nonce ++ h.seal key nonce plaintext)
        × (s' ≡ u)
  unfolding seal_random
  seal_by key plaintext ct s s' (err x, u) drawn ran = absurd (ground (arith, drawn, ran))
  seal_by key plaintext ct s s' (ok nonce, u) drawn ran = (
    nonce,
    u,
    drawn,
    ground (arith, drawn, ran),
    ground (arith, drawn, ran),
    ground (arith, drawn, ran),
  )

  -- What `wrapDEK` and `encryptBlob` give, where they succeed
  pub seal_random-eq-ok :
      (key plaintext ct : Bytes) (s s' : h.State)
      → seal_random h key plaintext s ≡ (ok ct, s')
      → (nonce : Bytes) × (u : h.State) × (h.rand nonce_size s ≡ (ok nonce, u))
        × (eqb (length key) 32 ≡ true)
        × (ct ≡ nonce ++ h.seal key nonce plaintext)
        × (s' ≡ u)
  seal_random-eq-ok key plaintext ct s s' ran =
      seal_by key plaintext ct s s' (h.rand nonce_size s) refl ran

  -- What is sealed under a key opens under that key to the same bytes.
  pub open_sealed-seal_random :
      (key plaintext ct : Bytes) (s s' : h.State)
      → seal_random h key plaintext s ≡ (ok ct, s')
      → open_sealed h key ct ≡ ok plaintext
  unfolding seal_random
  open_sealed-seal_random key plaintext ct s s' ran =
      let (nonce, u, drawn, k, made, end) = seal_random-eq-ok key plaintext ct s s' ran in
      rw made (open_parts key nonce plaintext k (laws.rand_length nonce_size s u nonce drawn))

  -- `decryptBlob` undoes `encryptBlob` under the same state of the key.
  pub decrypt_blob-encrypt_blob :
      (dek : Option Bytes) (plaintext ct : Bytes) (s s' : h.State)
      → encrypt_blob h dek plaintext s ≡ (ok ct, s')
      → decrypt_blob h dek ct ≡ ok plaintext
  unfolding encrypt_blob decrypt_blob
  decrypt_blob-encrypt_blob none plaintext ct s s' ran = ground arith
  decrypt_blob-encrypt_blob (some dek) plaintext ct s s' ran =
      open_sealed-seal_random dek plaintext ct s s' ran
