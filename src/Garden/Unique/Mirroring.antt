-- ===== src/Garden/Unique/Mirroring.antt =====
-- `MirrorUp` tracks no path twice.
use mathlib.Core.List.{map-append, append_assoc, append-nil}
use sgard.Base.{
  ℕ, ◌≡◌, refl, List, [], ◌∷◌, ◌++◌, Text, ok, err, Error, bind_keeps, arith, update_each_pairs,
  AllPairs,
}
use sgard.Paths.{to_tilde_path, expand_tilde_path}
use sgard.Manifest.{Entry, with_slash}
use sgard.Host.{Host}
use sgard.Garden.{Garden, Repo, files}
use sgard.Garden.Add.{no_options, add_walk, finish}
use sgard.Garden.Checkpoint.{rehash}
use sgard.Garden.Mirror.{
  mirror_up, drop_missing, rehash_under, mirror_rehash, mirror_up_prefix, mirror_up_at,
  mirror_up_path,
}
use sgard.Garden.Unique.{paths, NodupPaths, Distinct-remove, IsUnique}
use sgard.Garden.Unique.Adding.{add_walk-IsUnique, finish-IsUnique, loop-IsUnique}

-- `ExpandTildePath` cannot fail where the home directory is known.
expand-ok : (home p : Text) (x : Error) → expand_tilde_path (ok home) p ≡ err x → ⊥
unfolding expand_tilde_path
expand-ok home p x e = ground arith

paths-rehash_under :
    (h : Host) (g : Garden) (now : ℕ) (prefix : Text) (e : Entry) (s : h.State)
    → (rehash_under h g now prefix e s).1.path ≡ e.path
unfolding rehash_under rehash
paths-rehash_under h g now prefix e s = ground arith

same_paths : (xs ys : List Entry) → AllPairs (λ x y. y.path ≡ x.path) xs ys → paths ys ≡ paths xs
same_paths [] [] p = refl
same_paths [] (y ∷ ys) p = absurd p
same_paths (x ∷ xs) [] p = absurd p
same_paths (x ∷ xs) (y ∷ ys) (k, p) = cc (k, same_paths xs ys p)

module _ (h : Host) where
  module _ {home : Text} (known : h.home ≡ ok home) where
    dropped-NodupPaths :
        (kept : List Entry) (e : Entry) (es : List Entry)
        → NodupPaths (kept ++ (e ∷ es))
        → NodupPaths (kept ++ es)
    dropped-NodupPaths kept e es u =
        rw map-append (Distinct-remove (paths kept) e.path (paths es) (rw map-append at u))

    kept-NodupPaths :
        (kept : List Entry) (e : Entry) (es : List Entry)
        → NodupPaths (kept ++ (e ∷ es))
        → NodupPaths ((kept ++ (e ∷ [])) ++ es)
    kept-NodupPaths kept e es u = rw append_assoc u

    drop_missing-NodupPaths :
        (prefix : Text) (s : h.State) (all kept es : List Entry)
        → NodupPaths (kept ++ es)
        → NodupPaths (drop_missing h prefix s all kept es).1
    unfolding drop_missing
    drop_missing-NodupPaths prefix s all kept [] u = rw append-nil at u
    drop_missing-NodupPaths prefix s all kept (e ∷ es) u = grind (
      arith,
      known,
      expand-ok home e.path,
      drop_missing-NodupPaths prefix s all kept es (dropped-NodupPaths kept e es u),
      drop_missing-NodupPaths prefix s all (kept ++ (e ∷ [])) es (kept-NodupPaths kept e es u),
    )

    pub mirror_rehash-IsUnique :
        (now : ℕ) (prefix : Text) (s : Repo h)
        → IsUnique s
        → IsUnique (mirror_rehash h now prefix s).1
    unfolding mirror_rehash
    mirror_rehash-IsUnique now prefix s u =
        rw
          (same_paths (files s) _ (
            update_each_pairs (λ x y. y.path ≡ x.path) (rehash_under h s.garden now prefix)
              (λ x. refl) (paths-rehash_under h s.garden now prefix) (files s) s.disk))
          u

    pub mirror_up_prefix-IsUnique :
        (now : ℕ) (prefix : Text) (s : Repo h)
        → IsUnique s
        → IsUnique (mirror_up_prefix h now prefix s).1
    unfolding mirror_up_prefix
    mirror_up_prefix-IsUnique now prefix s u = grind (
      arith,
      drop_missing-NodupPaths prefix s.disk (files s) [] (files s) u,
      mirror_rehash-IsUnique,
    )

    pub mirror_up_at-IsUnique :
        (now : ℕ) (path : Text) (s : Repo h) → IsUnique s → IsUnique (mirror_up_at h now path s).1
    unfolding mirror_up_at
    mirror_up_at-IsUnique now path s u =
        bind_keeps IsUnique (add_walk h now no_options path) _ s
          (add_walk-IsUnique h now no_options path s u)
          (λ _. mirror_up_prefix-IsUnique now (with_slash (to_tilde_path h.home path)))

    pub mirror_up_path-IsUnique :
        (now : ℕ) (p : Text) (s : Repo h) → IsUnique s → IsUnique (mirror_up_path h now p s).1
    unfolding mirror_up_path
    mirror_up_path-IsUnique now p s u = grind (arith, mirror_up_at-IsUnique)

    pub mirror_up-IsUnique :
        (ps : List Text) (now : ℕ) (s : Repo h) → IsUnique s → IsUnique (mirror_up h ps now s).1
    unfolding mirror_up
    mirror_up-IsUnique ps now s u =
        loop-IsUnique h (mirror_up_path h now) (finish h now) (mirror_up_path-IsUnique now)
          (finish-IsUnique h now) ps s u
