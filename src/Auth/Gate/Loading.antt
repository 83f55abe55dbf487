-- ===== src/Auth/Gate/Loading.antt =====
-- The loop over the file of the authorized keys ends.
use sgard.Base.{
  ℕ, zero, suc, ◌≡◌, ◌≤◌, ◌<◌, ◌+◌, refl, subst, ◌∙◌, Option, none, some, List, [], ◌∷◌, Text,
  Bytes, length, arith,
}
use sgard.Auth.Library.{Library}
use sgard.Auth.Gate.{put_key, load_keys}

module _ (library : Library)
    (shorter : (bytes rest : Bytes) (key : library.Key)
      → library.parse_authorized_key bytes ≡ some (key, rest)
      → length rest < length bytes) where
  step :
      (n : ℕ) (b : ℕ) (rest : Bytes) (keys : List (Text × library.Key))
      (out : Option (library.Key × Bytes))
      → library.parse_authorized_key (b ∷ rest) ≡ out
      → load_keys library (suc n) (b ∷ rest) keys ≡ (
          let r : Option (List (Text × library.Key)) = elim out [
            | none ↦ some keys
            | some (key, behind) ↦
                load_keys library n behind (put_key library (library.fingerprint key) key keys)
          ] in
          r)
  unfolding load_keys
  step n b rest keys none e = rw (e, load_keys) refl
  step n b rest keys (some (key, behind)) e = rw (e, load_keys) refl

  one_more :
      (n b more : ℕ) (rest : Bytes) (keys all : List (Text × library.Key))
      → load_keys library (suc (n + more)) (b ∷ rest) keys ≡ some all
      → load_keys library (suc n + more) (b ∷ rest) keys ≡ some all
  one_more n b more rest keys all e =
      subst (λ (m : ℕ). load_keys library m (b ∷ rest) keys ≡ some all) (omega arith) e

  ended :
      (n b : ℕ) (rest : Bytes) (keys : List (Text × library.Key))
      (out : Option (library.Key × Bytes))
      → library.parse_authorized_key (b ∷ rest) ≡ out
      → ((behind : Bytes) (keys' : List (Text × library.Key))
          → length behind < suc (length rest)
          → (all : List (Text × library.Key)) × ((more : ℕ)
              → load_keys library (n + more) behind keys' ≡ some all))
      → (all : List (Text × library.Key)) × ((more : ℕ)
          → load_keys library (suc n + more) (b ∷ rest) keys ≡ some all)
  ended n b rest keys none e next =
      (keys, λ more. one_more n b more rest keys keys (step (n + more) b rest keys none e))
  ended n b rest keys (some (key, behind)) e next =
      let (all, ends) =
        next behind (put_key library (library.fingerprint key) key keys)
          (shorter (b ∷ rest) behind key e) in
      (
        all,
        λ more.
            one_more n b more rest keys all
              (step (n + more) b rest keys (some (key, behind)) e ∙ ends more),
      )

  ends :
      (n : ℕ) (bytes : Bytes) (keys : List (Text × library.Key))
      → length bytes ≤ n
      → (all : List (Text × library.Key)) × ((more : ℕ)
          → load_keys library (n + more) bytes keys ≡ some all)
  unfolding load_keys
  ends n [] keys le = (keys, λ more. refl)
  ends zero (b ∷ rest) keys le = absurd (omega arith)
  ends (suc n) (b ∷ rest) keys le =
      ended n b rest keys (library.parse_authorized_key (b ∷ rest)) refl
        (λ behind keys' less. ends n behind keys' (omega arith))

  -- Where ParseAuthorizedKey leaves less than it was given, the loop comes to its end, the end of the
  -- file or a key that cannot be parsed, within as many rounds as the file has bytes, and more fuel
  -- does not change what it returns.
  pub load_keys_enough :
      (bytes : Bytes) (keys : List (Text × library.Key))
      → (all : List (Text × library.Key)) × (load_keys library (length bytes) bytes keys ≡ some all)
        × ((more : ℕ) → load_keys library (length bytes + more) bytes keys ≡ some all)
  load_keys_enough bytes keys =
      let (all, same) = ends (length bytes) bytes keys (omega arith) in
      (
        all,
        subst (λ (n : ℕ). load_keys library n bytes keys ≡ some all) (omega arith) (same 0),
        same,
      )
