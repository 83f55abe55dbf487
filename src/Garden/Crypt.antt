-- ===== src/Garden/Crypt.antt =====
-- garden/encrypt.go: `encryptBlob` and `decryptBlob`, by XChaCha20-Poly1305 with 24 bytes of nonce
-- in front of the ciphertext.
pub mod RoundTrip
use sgard.Base.{
  ℕ, Option, none, some, ◌++◌, Bytes, eqb, ltb, length, take, drop, if◌then◌else◌, Result, ok, err,
  Exec, dek_locked, bad_key, ciphertext_too_short, decryption_failed,
}
use sgard.Host.{Host}

abbrev pub nonce_size : ℕ
nonce_size = 24

abbrev pub key_size : ℕ
key_size = 32

module _ (h : Host) where
  -- chacha20poly1305.NewX, a random nonce, and Seal behind it. `wrapDEK` is this too.
  unfoldable pub seal_random : Bytes → Bytes → Exec h.State Bytes
  seal_random key plaintext s =
      if eqb (length key) key_size
      then (let (r, s') = h.rand nonce_size s in
          elim r [
            | ok nonce ↦ (ok (nonce ++ h.seal key nonce plaintext), s')
            | err e ↦ (err e, s')
          ])
      else (err bad_key, s)

  -- NewX, the length test, and Open. `unwrapDEK` is this too.
  unfoldable pub open_sealed : Bytes → Bytes → Result Bytes
  open_sealed key ciphertext =
      if eqb (length key) key_size
      then if ltb (length ciphertext) nonce_size
        then err ciphertext_too_short
        else (elim (h.unseal key (take nonce_size ciphertext) (drop nonce_size ciphertext)) [
          | some plaintext ↦ ok plaintext
          | none ↦ err decryption_failed
        ])
      else err bad_key

  -- `encryptBlob`
  unfoldable pub encrypt_blob : Option Bytes → Bytes → Exec h.State Bytes
  encrypt_blob none plaintext s = (err dek_locked, s)
  encrypt_blob (some dek) plaintext s = seal_random dek plaintext s

  -- `decryptBlob`
  unfoldable pub decrypt_blob : Option Bytes → Bytes → Result Bytes
  decrypt_blob none ciphertext = err dek_locked
  decrypt_blob (some dek) ciphertext = open_sealed dek ciphertext
