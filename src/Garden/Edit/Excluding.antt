-- ===== src/Garden/Edit/Excluding.antt =====
-- `Exclude` against `IsExcluded` and the tracked entries.
use sgard.Base.{
  ◌≡◌, true, false, none, List, [], ◌∷◌, ◌++◌, Text, eq_iff, eq_refl, Result, ok, err, Error, All,
  arith, refl, sym, ap, Bool-cases, inl, inr, for_each, for_each_keeps, for_each-eq-ok, >>=-eq-ok,
  bind_keeps,
}
use sgard.Manifest.{Manifest, Entry, matches_any, is_excluded}
use sgard.Host.{Host}
use sgard.Garden.{Repo, files, with_manifest, find_entry, save_manifest}
use sgard.Garden.Identity.{contains}
use sgard.Garden.Edit.{remove_excluded_entries, resolve, exclude_path, exclude}
use sgard.Garden.Edit.Laws.{IsNamed, is_named, is_named-IsNamed}

remove_excluded_entries-All :
    (m : Manifest) (es : List Entry)
    → All (λ e. is_excluded m e.path ≡ false) (remove_excluded_entries m es)
unfolding remove_excluded_entries
remove_excluded_entries-All m [] = tt
remove_excluded_entries-All m (e ∷ es) = ground (arith, remove_excluded_entries-All m es)

contains-matches_any :
    (q : Text) (exs : List Text) → contains exs q ≡ true → matches_any q exs ≡ true
unfolding contains matches_any
contains-matches_any q [] c = ground arith
contains-matches_any q (ex ∷ exs) c =
    ground (arith, eq_iff q ex, eq_iff ex q, contains-matches_any q exs)

matches_any-more :
    (q ex : Text) (exs : List Text)
    → matches_any q exs ≡ true
    → matches_any q (exs ++ (ex ∷ [])) ≡ true
unfolding matches_any
matches_any-more q ex [] c = ground arith
matches_any-more q ex (x ∷ exs) c = ground (arith, matches_any-more q ex exs)

matches_any-last : (q : Text) (exs : List Text) → matches_any q (exs ++ (q ∷ [])) ≡ true
unfolding matches_any
matches_any-last q [] = ground (arith, eq_refl q)
matches_any-last q (x ∷ exs) = ground (arith, matches_any-last q exs)

untracked :
    (m : Manifest) (q : Text) (es : List Entry)
    → All (λ e. is_excluded m e.path ≡ false) es
    → is_excluded m q ≡ true
    → find_entry q es ≡ none
unfolding find_entry
untracked m q [] out x = refl
untracked m q (e ∷ es) out x = ground (arith, eq_iff e.path q, untracked m q es)

module _ (h : Host) where
  -- No tracked path is excluded.
  unfoldable pub NoneExcluded : Repo h → Type 0
  NoneExcluded s = All (λ e. is_excluded s.garden.manifest e.path ≡ false) (files s)

  -- The manifest that the loop's body makes for a path that it adds
  abbrev excluding : Text → Manifest → Manifest
  excluding q m =
      let m' = record m { exclude = m.exclude ++ (q ∷ []) } in
      record m' { files = remove_excluded_entries m' m.files }

  save_manifest-manifest :
      (s s' : Repo h) → save_manifest h s ≡ (ok tt, s') → s'.garden.manifest ≡ s.garden.manifest
  unfolding save_manifest
  save_manifest-manifest s s' e =
      sym (ap (λ (x : Result (Unit {0}) × Repo h). x.1.garden.manifest) e)

  exclude_path-err :
      (p : Text) (s : Repo h) (x : Error) → resolve h p ≡ err x → exclude_path h p s ≡ (err x, s)
  unfolding exclude_path
  exclude_path-err p s x r = ground arith

  exclude_path-there :
      (p q : Text) (s : Repo h)
      → resolve h p ≡ ok q
      → contains s.garden.manifest.exclude q ≡ true
      → exclude_path h p s ≡ (ok tt, s)
  unfolding exclude_path
  exclude_path-there p q s r c = ground arith

  exclude_path-new :
      (p q : Text) (s : Repo h)
      → resolve h p ≡ ok q
      → contains s.garden.manifest.exclude q ≡ false
      → exclude_path h p s ≡ (ok tt, with_manifest (excluding q s.garden.manifest) s)
  unfolding exclude_path
  exclude_path-new p q s r c = ground arith

  -- What the body of the loop does to the manifest
  changes :
      (P : Manifest → Type 0) (p : Text) (s : Repo h) (r : Result Text)
      → resolve h p ≡ r
      → P s.garden.manifest
      → ((q : Text) → P (excluding q s.garden.manifest))
      → P (exclude_path h p s).1.garden.manifest
  changes P p s (err x) r same new = rw (exclude_path-err p s x r) same
  changes P p s (ok q) r same new = elim (Bool-cases (contains s.garden.manifest.exclude q)) [
    | inl c ↦ rw (exclude_path-there p q s r c) same
    | inr c ↦ rw (exclude_path-new p q s r c) (new q)
  ]

  exclude_path-NoneExcluded :
      (p : Text) (s : Repo h) → NoneExcluded s → NoneExcluded (exclude_path h p s).1
  unfolding NoneExcluded is_excluded
  exclude_path-NoneExcluded p s u =
      changes (λ m. All (λ (e : Entry). is_excluded m e.path ≡ false) m.files) p s (resolve h p)
        refl u
        (λ q.
          remove_excluded_entries-All
            (record s.garden.manifest { exclude = s.garden.manifest.exclude ++ (q ∷ []) })
            s.garden.manifest.files)

  save_manifest-NoneExcluded : (s : Repo h) → NoneExcluded s → NoneExcluded (save_manifest h s).1
  unfolding save_manifest NoneExcluded
  save_manifest-NoneExcluded s u = u

  -- `Exclude` keeps it that no tracked path is excluded, whether it succeeds or fails.
  pub exclude-NoneExcluded :
      (ps : List Text) (s : Repo h) → NoneExcluded s → NoneExcluded (exclude h ps s).1
  unfolding exclude
  exclude-NoneExcluded ps s u =
      bind_keeps NoneExcluded (for_each ps (exclude_path h)) (λ _. save_manifest h) s
        (for_each_keeps NoneExcluded (exclude_path h) exclude_path-NoneExcluded ps s u)
        (λ _ t k. save_manifest-NoneExcluded t k)

  exclude_path-stays :
      (p q : Text) (s : Repo h)
      → is_excluded s.garden.manifest q ≡ true
      → is_excluded (exclude_path h p s).1.garden.manifest q ≡ true
  unfolding is_excluded
  exclude_path-stays p q s x =
      changes (λ m. matches_any q m.exclude ≡ true) p s (resolve h p) refl x
        (λ new. matches_any-more q new s.garden.manifest.exclude x)

  exclude_path-names :
      (p q : Text) (s : Repo h)
      → resolve h p ≡ ok q
      → is_excluded (exclude_path h p s).1.garden.manifest q ≡ true
  unfolding is_excluded
  exclude_path-names p q s r = elim (Bool-cases (contains s.garden.manifest.exclude q)) [
    | inl c ↦ rw (exclude_path-there p q s r c) (contains-matches_any q s.garden.manifest.exclude c)
    | inr c ↦ rw (exclude_path-new p q s r c) (matches_any-last q s.garden.manifest.exclude)
  ]

  loop-stays :
      (ps : List Text) (q : Text) (s : Repo h)
      → is_excluded s.garden.manifest q ≡ true
      → is_excluded (for_each ps (exclude_path h) s).1.garden.manifest q ≡ true
  loop-stays ps q s x =
      for_each_keeps (λ (t : Repo h). is_excluded t.garden.manifest q ≡ true) (exclude_path h)
        (λ p t k. exclude_path-stays p q t k) ps s x

  loop-names :
      (ps : List Text) (q : Text) (s s' : Repo h)
      → for_each ps (exclude_path h) s ≡ (ok tt, s')
      → IsNamed h ps q
      → is_excluded s'.garden.manifest q ≡ true
  loop-names [] q s s' e n = elim n [ ]
  loop-names (p ∷ ps) q s s' e (inl r) =
      let (t, first, rest) = for_each-eq-ok (exclude_path h) p ps s s' e in
      rw rest at (loop-stays ps q t (rw first at (exclude_path-names p q s r)))
  loop-names (p ∷ ps) q s s' e (inr n) =
      let (t, first, rest) = for_each-eq-ok (exclude_path h) p ps s s' e in
      loop-names ps q t s' rest n

  -- `Exclude`, where it succeeds and no tracked path was excluded before: a path that an argument
  -- names is excluded, and neither it nor any other excluded path is tracked.
  pub exclude_lem :
      (ps : List Text) (s s' : Repo h) (p q : Text)
      → NoneExcluded s
      → exclude h ps s ≡ (ok tt, s')
      → is_named h ps p ≡ true
      → is_excluded s'.garden.manifest q ≡ true
      → (is_excluded s'.garden.manifest p ≡ true)
        × (find_entry p (files s') ≡ none)
        × (find_entry q (files s') ≡ none)
  unfolding exclude NoneExcluded
  exclude_lem ps s s' p q u e n x =
      let (_, t, loop, end) =
        >>=-eq-ok (for_each ps (exclude_path h)) (λ _. save_manifest h) s tt s' e in
      let none_left : NoneExcluded s' = rw e at (exclude-NoneExcluded ps s u) in
      let named : is_excluded s'.garden.manifest p ≡ true =
        rw (save_manifest-manifest t s' end)
          (loop-names ps p s t loop (is_named-IsNamed h ps p n)) in
      (
        named,
        untracked s'.garden.manifest p (files s') none_left named,
        untracked s'.garden.manifest q (files s') none_left x,
      )
