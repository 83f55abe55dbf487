-- ===== src/Auth/Tokens/Cached.antt =====
-- A token that is saved is loaded again.
use mathlib.Core.List.{reverse, reverse-append, reverse-reverse}
use sgard.Base.{
  ℕ, ◌≡◌, refl, ◌∙◌, sym, ap, false, [], ◌∷◌, ◌++◌, Text, Bytes, All, All-append, subst, ◌≢◌, ◌>>◌,
  Result, ok, err, >>=-eq-ok,
}
use sgard.Paths.{dir}
use sgard.Host.{Host}
use sgard.Auth.Tokens.{is_space, trim_left, trim_space, token_path, load_cached_token, save_token}

-- A text without white space
abbrev pub IsSolid : Text → Type 0
IsSolid = All (λ c. is_space c ≡ false)

trim_left-solid : (s : Text) → IsSolid s → trim_left s ≡ s
unfolding trim_left
trim_left-solid [] solid = refl
trim_left-solid (c ∷ s) solid = rw solid.0 refl

IsSolid-reverse : (s : Text) → IsSolid s → IsSolid (reverse s)
IsSolid-reverse [] solid = tt
IsSolid-reverse (c ∷ s) solid = subst IsSolid (sym (reverse-append (c ∷ []) s)) (
    All-append (λ c. is_space c ≡ false) (reverse s) (c ∷ []) (IsSolid-reverse s solid.1)
      (solid.0, tt))

-- Behind a text without white space the newline goes, and the text stays.
trim_left-line : (s : Text) → IsSolid s → s ≢ [] → trim_left (s ++ (10 ∷ [])) ≡ s ++ (10 ∷ [])
unfolding trim_left
trim_left-line [] solid named = absurd (named refl)
trim_left-line (c ∷ s) solid named = rw solid.0 refl

trim_left-newline : (s : Text) → trim_left (10 ∷ s) ≡ trim_left s
unfolding trim_left
trim_left-newline s = refl

trim_space-line : (s : Text) → IsSolid s → s ≢ [] → trim_space (s ++ (10 ∷ [])) ≡ s
unfolding trim_space
trim_space-line s solid named =
    ap (λ x. reverse (trim_left (reverse x))) (trim_left-line s solid named)
    ∙ ap (λ x. reverse (trim_left x)) (reverse-append s (10 ∷ []))
    ∙ ap reverse
        (trim_left-newline (reverse s) ∙ trim_left-solid (reverse s) (IsSolid-reverse s solid))
    ∙ reverse-reverse s

module _ (h : Host) (state_home : Text) where
  loaded_by :
      (token : Text) (path : Result Text) (s s' : h.State)
      → ((p : Text) (b : Bytes) (m : ℕ) (t t' : h.State)
          → h.write_file p b m t ≡ (ok tt, t')
          → h.read_file p t' ≡ ok b)
      → IsSolid token
      → token ≢ []
      → (let r : Result (Unit {0}) × h.State = elim path [
        | err x ↦ (err x, s)
        | ok p ↦ (h.mkdir_all (dir p) 0o700 >> h.write_file p (token ++ (10 ∷ [])) 0o600) s
      ] in
          r)
        ≡ (ok tt, s')
      → (let r : Text = elim path [
        | err _ ↦ []
        | ok p ↦ elim (h.read_file p s') [ err _ ↦ [] | ok bytes ↦ trim_space bytes ]
      ] in
          r)
        ≡ token
  loaded_by token (err x) s s' back solid named e = cc (ap (λ r. r.0) e)
  loaded_by token (ok p) s s' back solid named e =
      let (_, t, _, wrote) = >>=-eq-ok (h.mkdir_all (dir p) 0o700) _ s tt s' e in
      rw (back p (token ++ (10 ∷ [])) 0o600 t s' wrote) (trim_space-line token solid named)

  -- On a disk where a file that was written holds the bytes that were written, a token that is saved
  -- without an error is loaded again, if it is not empty and has no white space.
  pub load_cached_token-save_token :
      (token : Text) (s s' : h.State)
      → ((p : Text) (b : Bytes) (m : ℕ) (t t' : h.State)
          → h.write_file p b m t ≡ (ok tt, t')
          → h.read_file p t' ≡ ok b)
      → IsSolid token
      → token ≢ []
      → save_token h state_home token s ≡ (ok tt, s')
      → load_cached_token h state_home s' ≡ token
  unfolding save_token load_cached_token
  load_cached_token-save_token token s s' back solid named e =
      loaded_by token (token_path h state_home) s s' back solid named e
