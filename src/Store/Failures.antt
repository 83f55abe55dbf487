-- ===== src/Store/Failures.antt =====
-- An atomic write that fails leaves a path that is apart from it as it was.
use sgard.Base.{
  ◌≡◌, refl, false, [], ◌∷◌, ◌++◌, Text, Bytes, has_prefix, Result, ok, err, Exec, pure, continue,
}
use sgard.Paths.{slash, dir}
use sgard.Host.{Host}
use sgard.Host.Atomic.{undone, or_remove, write_or_close, move_into, write_atomically}
use sgard.Host.Laws.{SameAt, SameAt-trans, DiskLaws}
use sgard.Store.Laws.{undone_frame, write_or_close_frame}

module _ (h : Host) (q : Text) (s : h.State) where
  -- A failure leaves the path as it was.
  abbrev pub FailedSame : {A : Type 0} → Result A × h.State → Type 0
  FailedSame (ok _, t) = Unit
  FailedSame (err x, t) = SameAt h q s t

  pub failed_continue :
      {A B : Type 0} (f : A → Exec h.State B) (out : Result A × h.State)
      → SameAt h q s out.1
      → ((a : A) (t : h.State) → SameAt h q s t → FailedSame (f a t))
      → FailedSame (continue out.0 f out.1)
  failed_continue f (ok a, t) same k = k a t same
  failed_continue f (err x, t) same k = same

  pub failed_pure :
      {A B : Type 0} (b : B) (out : Result A × h.State)
      → FailedSame out
      → FailedSame (continue out.0 (λ _. pure b) out.1)
  failed_pure b (ok a, t) same = tt
  failed_pure b (err x, t) same = same

module _ (h : Host) (laws : DiskLaws h) (pre p q : Text) (bytes : Bytes) (s : h.State)
    (temps : (r : Text) → has_prefix (dir p ++ (slash ∷ (pre ++ r))) q ≡ false) where
  rename_failed :
      (tmp : Text) (u : h.State) (out : Result (Unit {0}) × h.State)
      → has_prefix tmp q ≡ false
      → SameAt h q s u
      → h.rename tmp p u ≡ out
      → FailedSame h q s (undone h tmp out)
  unfolding undone
  rename_failed tmp u (ok _, v) apart same e = tt
  rename_failed tmp u (err x, v) apart same e =
      SameAt-trans same
        (SameAt-trans (laws.rename_failed tmp p u v x q e) (laws.remove_frame tmp v q apart))

  move_failed :
      (tmp : Text) (u : h.State)
      → has_prefix tmp q ≡ false
      → SameAt h q s u
      → FailedSame h q s (move_into h tmp p bytes u)
  unfolding move_into or_remove
  move_failed tmp u apart same =
      failed_continue h q s _ (undone h tmp (write_or_close h tmp bytes u))
        (SameAt-trans same
          (undone_frame h laws tmp u q _ apart (write_or_close_frame h laws tmp bytes u q apart)))
        λ _ v same'.
          failed_continue h q s _ (undone h tmp (h.close_temp tmp v))
            (SameAt-trans same'
              (undone_frame h laws tmp v q _ apart (laws.close_temp_frame tmp v q)))
            λ _ w same''. rename_failed tmp w _ apart same'' refl

  created_failed :
      (u : h.State) (out : Result Text × h.State)
      → SameAt h q s u
      → h.create_temp (dir p) (pre ++ (b'*' ∷ [])) u ≡ out
      → FailedSame h q s (continue out.0 (λ tmp. move_into h tmp p bytes) out.1)
  created_failed u (ok n, v) same e =
      let (r, name) = laws.create_temp_name (dir p) pre u v n e in
      let apart : has_prefix n q ≡ false = rw name (temps r) in
      move_failed n v apart (SameAt-trans same (laws.create_temp_frame (dir p) _ u v n q e apart))
  created_failed u (err x, v) same e =
      SameAt-trans same (laws.create_temp_failed (dir p) _ u v x q e)

  -- An atomic write that fails leaves its path too as it was.
  pub write_atomically_failed :
      (u : h.State)
      → SameAt h q s u
      → FailedSame h q s (write_atomically h (pre ++ (b'*' ∷ [])) p bytes u)
  unfolding write_atomically
  write_atomically_failed u same =
      created_failed u (h.create_temp (dir p) (pre ++ (b'*' ∷ [])) u) same refl
