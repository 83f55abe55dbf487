-- ===== src/Store/Laws.antt =====
-- The store as a map from hashes to blobs: what each operation does to every hash.
use sgard.Base.{
  ◌≡◌, refl, ◌∙◌, sym, ap, true, false, [], ◌∷◌, ◌++◌, Text, Bytes, has_prefix, Result, ok, err,
  continue, bind_keeps, >>=-eq-ok,
}
use sgard.Paths.{slash, dir}
use sgard.Host.{Host}
use sgard.Host.Atomic.{undone, or_remove, closed, write_or_close, move_into, write_atomically}
use sgard.Host.Laws.{SameAt, SameAt-trans, DiskLaws}
use sgard.Store.{valid_hash, hash_of}
use sgard.Store.Hash.{hex-valid_hash}

module _ (h : Host) (laws : DiskLaws h) where
  pub hash_of-valid_hash : (bytes : Bytes) → valid_hash (hash_of h bytes) ≡ true
  unfolding hash_of
  hash_of-valid_hash bytes =
      hex-valid_hash (h.sha256 bytes) (laws.digest_length bytes) (laws.digest_bytes bytes)

  pub undone_frame :
      (tmp : Text) (s : h.State) (q : Text) (out : Result (Unit {0}) × h.State)
      → has_prefix tmp q ≡ false
      → SameAt h q s out.1
      → SameAt h q s (undone h tmp out).1
  unfolding undone
  undone_frame tmp s q (ok _, t) apart same = same
  undone_frame tmp s q (err e, t) apart same = SameAt-trans same (laws.remove_frame tmp t q apart)

  closed_frame :
      (tmp : Text) (s : h.State) (q : Text) (out : Result (Unit {0}) × h.State)
      → SameAt h q s out.1
      → SameAt h q s (closed h tmp out).1
  closed_frame tmp s q (ok _, t) same = same
  closed_frame tmp s q (err e, t) same = SameAt-trans same (laws.close_temp_frame tmp t q)

  pub write_or_close_frame :
      (tmp : Text) (bytes : Bytes) (s : h.State) (q : Text)
      → has_prefix tmp q ≡ false
      → SameAt h q s (write_or_close h tmp bytes s).1
  write_or_close_frame tmp bytes s q apart =
      closed_frame tmp s q (h.write_temp tmp bytes s) (laws.write_temp_frame tmp bytes s q apart)

  pub move_into_frame :
      (tmp p q : Text) (bytes : Bytes) (s : h.State)
      → has_prefix p q ≡ false
      → has_prefix tmp q ≡ false
      → SameAt h q s (move_into h tmp p bytes s).1
  unfolding move_into or_remove
  move_into_frame tmp p q bytes s apart apart' =
      bind_keeps (SameAt h q s) (or_remove h tmp (write_or_close h tmp bytes)) _ s
        (undone_frame tmp s q _ apart' (write_or_close_frame tmp bytes s q apart'))
        λ _ t same.
          bind_keeps (SameAt h q s) (or_remove h tmp (h.close_temp tmp)) _ t
            (undone_frame tmp s q _ apart' (SameAt-trans same (laws.close_temp_frame tmp t q)))
            λ _ u same'.
              undone_frame tmp s q _ apart'
                (SameAt-trans same' (laws.rename_frame tmp p u q apart' apart))

  module _ (pre p q : Text) (bytes : Bytes) (s : h.State) (apart : has_prefix p q ≡ false)
      (temps : (r : Text) → has_prefix (dir p ++ (slash ∷ (pre ++ r))) q ≡ false) where
    created_frame :
        (out : Result Text × h.State)
        → h.create_temp (dir p) (pre ++ (b'*' ∷ [])) s ≡ out
        → SameAt h q s (continue out.0 (λ tmp. move_into h tmp p bytes) out.1).1
    created_frame (ok n, t) e =
        let (r, name) = laws.create_temp_name (dir p) pre s t n e in
        let apart' : has_prefix n q ≡ false = rw name (temps r) in
        SameAt-trans (laws.create_temp_frame (dir p) _ s t n q e apart')
          (move_into_frame n p q bytes t apart apart')
    created_frame (err x, t) e = laws.create_temp_failed (dir p) _ s t x q e

    -- An atomic write touches only its path, and the temporary file beside it.
    pub write_atomically_frame : SameAt h q s (write_atomically h (pre ++ (b'*' ∷ [])) p bytes s).1
    unfolding write_atomically
    write_atomically_frame = created_frame (h.create_temp (dir p) (pre ++ (b'*' ∷ [])) s) refl

  undone-eq-ok :
      (tmp : Text) (out : Result (Unit {0}) × h.State) (s' : h.State)
      → undone h tmp out ≡ (ok tt, s')
      → out ≡ (ok tt, s')
  unfolding undone
  undone-eq-ok tmp (ok _, t) s' e = e
  undone-eq-ok tmp (err x, t) s' e = cc (ap (λ r. r.0) e)

  closed-eq-ok :
      (tmp : Text) (out : Result (Unit {0}) × h.State) (s' : h.State)
      → closed h tmp out ≡ (ok tt, s')
      → out ≡ (ok tt, s')
  closed-eq-ok tmp (ok _, t) s' e = e
  closed-eq-ok tmp (err x, t) s' e = cc (ap (λ r. r.0) e)

  -- An atomic write that succeeds leaves the bytes at its path.
  pub write_atomically-read :
      (pattern p : Text) (bytes : Bytes) (s s' : h.State)
      → write_atomically h pattern p bytes s ≡ (ok tt, s')
      → h.read_file p s' ≡ ok bytes
  unfolding write_atomically move_into or_remove
  write_atomically-read pattern p bytes s s' e =
      let (tmp, s₁, made, e₁) = >>=-eq-ok (h.create_temp (dir p) pattern) _ s tt s' e in
      let (_, s₂, wrote, e₂) =
        >>=-eq-ok (or_remove h tmp (write_or_close h tmp bytes)) _ s₁ tt s' e₁ in
      let (_, s₃, closed, e₃) = >>=-eq-ok (or_remove h tmp (h.close_temp tmp)) _ s₂ tt s' e₂ in
      laws.rename_moves tmp p s₃ s' (undone-eq-ok tmp _ s' e₃)
      ∙ ap (λ t. h.read_file tmp t) (sym (ap (λ r. r.1) (undone-eq-ok tmp _ s₃ closed)))
      ∙ (laws.close_temp_frame tmp s₂ tmp).read_file
      ∙ laws.write_temp_appends tmp [] bytes s₁ s₂
          (closed-eq-ok tmp _ s₂ (undone-eq-ok tmp _ s₂ wrote))
          (laws.create_temp_empty (dir p) pattern s s₁ tmp made)
