-- ===== src/Garden/Unique/Adding.antt =====
-- `Add` tracks no path twice.
use mathlib.Core.List.{map-append}
use sgard.Base.{
  ℕ, ◌≡◌, refl, ◌∙◌, sym, true, false, Bool, ◌&&◌, List, [], ◌∷◌, ◌++◌, Text, Result, ok, err,
  Error, Exec, pure, ◌>>=◌, ◌>>◌, bind_keeps, for_each, for_each_keeps, arith, Bool-cases, inl, inr,
  if◌then◌else◌,
}
use sgard.Paths.{to_tilde_path}
use sgard.Manifest.{Entry}
use sgard.Host.{Host, Info}
use sgard.Host.Walk.{Tree, walk_tree, walk_keeps}
use sgard.Garden.{Garden, Repo, files, is_tracked, save_manifest}
use sgard.Garden.Add
use sgard.Garden.Add.{
  AddOptions, no_options, make_entry, add_entry, add_visit, add_walk, add_directory, add_path,
  finish, add,
}
use sgard.Garden.Unique.{paths, NodupPaths, Distinct-snoc, is_tracked-eq-contains, IsUnique}

module _ (h : Host) where
  pub save_manifest-IsUnique : (s : Repo h) → IsUnique s → IsUnique (save_manifest h s).1
  unfolding save_manifest
  save_manifest-IsUnique s u = u

  add_new :
      (es : List Entry) (e : Entry) (p : Text)
      → e.path ≡ p
      → is_tracked p es ≡ false
      → NodupPaths es
      → NodupPaths (es ++ (e ∷ []))
  add_new es e p q n u =
      rw map-append
        (Distinct-snoc (paths es) e.path u (rw q (sym (is_tracked-eq-contains p es) ∙ n)))

  make_entry-path :
      (g : Garden) (path : Text) (info : Info) (now : ℕ) (o : AddOptions) (s : h.State) (e : Entry)
      → (make_entry h g path info now o s).0 ≡ ok e
      → e.path ≡ to_tilde_path h.home path
  unfolding make_entry Add.store_file
  make_entry-path g path info now o s e q = ground arith

  pub made-IsUnique :
      (s : Repo h) (p : Text) (out : Result Entry × h.State)
      → ((e : Entry) → out.0 ≡ ok e → e.path ≡ p)
      → is_tracked p (files s) ≡ false
      → IsUnique s
      → IsUnique (Add.append_made h s out).1
  unfolding Add.append_made
  made-IsUnique s p (ok e, d) q n u = add_new (files s) e p (q e refl) n u
  made-IsUnique s p (err x, d) q n u = u

  pub skipped-IsUnique :
      (skip : Bool) (x : Error) (s : Repo h)
      → IsUnique s
      → IsUnique
          (let out : Result (Unit {0}) × Repo h = if skip then (ok tt, s) else (err x, s) in out).1
  skipped-IsUnique true x s u = u
  skipped-IsUnique false x s u = u

  pub add_entry-IsUnique :
      (path : Text) (info : Info) (now : ℕ) (skip : Bool) (o : AddOptions) (s : Repo h)
      → IsUnique s
      → IsUnique (add_entry h path info now skip o s).1
  unfolding add_entry
  add_entry-IsUnique path info now skip o s u =
      elim (Bool-cases (is_tracked (to_tilde_path h.home path) (files s))) [
        | inl t ↦ rw t (skipped-IsUnique skip _ s u)
        | inr n ↦ rw n (
            made-IsUnique s (to_tilde_path h.home path)
              (make_entry h s.garden path info now o s.disk)
              (make_entry-path s.garden path info now o s.disk) n u)
      ]

  pub add_visit-IsUnique :
      (now : ℕ) (o : AddOptions) (path : Text) (is_dir : Bool) (s : Repo h)
      → IsUnique s
      → IsUnique (add_visit h now o path is_dir s).1
  unfolding add_visit
  add_visit-IsUnique now o path is_dir s u = grind (arith, add_entry-IsUnique)

  pub add_walk-IsUnique :
      (now : ℕ) (o : AddOptions) (path : Text) (s : Repo h)
      → IsUnique s
      → IsUnique (add_walk h now o path s).1
  unfolding add_walk
  add_walk-IsUnique now o path s u = elim (h.walk path s.disk) as (λ w. IsUnique (walked w).1) [
    | err x ↦ u
    | ok tree ↦
        bind_keeps IsUnique (walk_tree (add_visit h now o) path tree) (λ _. pure tt) s
          (walk_keeps IsUnique (add_visit h now o) (add_visit-IsUnique now o) tree path s u)
          (λ _ t k. k)
  ]
    where
      walked : Result Tree → Result (Unit {0}) × Repo h
      walked (err x) = (err x, s)
      walked (ok tree) = (walk_tree (add_visit h now o) path tree >>= λ _. pure tt) s

  pub add_directory-IsUnique :
      (path : Text) (info : Info) (now : ℕ) (o : AddOptions) (s : Repo h)
      → IsUnique s
      → IsUnique (add_directory h path info now o s).1
  unfolding add_directory
  add_directory-IsUnique path info now o s u =
      elim (Bool-cases (is_tracked (to_tilde_path h.home path) (files s))) [
        | inl t ↦ rw t u
        | inr n ↦ rw n (add_new (files s) _ _ refl n u)
      ]

  pub finish-IsUnique : (now : ℕ) (s : Repo h) → IsUnique s → IsUnique (finish h now s).1
  unfolding finish save_manifest
  finish-IsUnique now s u = u

  pub add_path-IsUnique :
      (now : ℕ) (o : AddOptions) (p : Text) (s : Repo h)
      → IsUnique s
      → IsUnique (add_path h now o p s).1
  unfolding add_path
  add_path-IsUnique now o p s u =
      grind (arith, add_directory-IsUnique, add_walk-IsUnique, add_entry-IsUnique)

  -- A loop that keeps the paths distinct, and a save behind it
  pub loop-IsUnique :
      {A : Type 0} (f : A → Exec (Repo h) (Unit {0})) (last : Exec (Repo h) (Unit {0}))
      → ((x : A) (s : Repo h) → IsUnique s → IsUnique (f x s).1)
      → ((s : Repo h) → IsUnique s → IsUnique (last s).1)
      → (xs : List A) (s : Repo h) → IsUnique s
      → IsUnique ((for_each xs f >> last) s).1
  loop-IsUnique f last keep end xs s u =
      bind_keeps IsUnique (for_each xs f) (λ _. last) s (for_each_keeps IsUnique f keep xs s u)
        (λ _. end)

  pub add-IsUnique :
      (ps : List Text) (o : AddOptions) (now : ℕ) (s : Repo h)
      → IsUnique s
      → IsUnique (add h ps o now s).1
  unfolding add
  add-IsUnique ps o now s u = elim (Bool-cases (o.encrypt && Add.is_locked s.garden.dek)) [
    | inl t ↦ rw (t, add) u
    | inr n ↦
        rw (n, add)
          (loop-IsUnique (add_path h now o) (finish h now) (add_path-IsUnique now o)
            (finish-IsUnique now) ps s u)
  ]
