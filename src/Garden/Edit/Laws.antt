-- ===== src/Garden/Edit/Laws.antt =====
-- What `Remove`, `Lock`, `Unlock` and `SetTargeting` do to the tracked entries, by path.
use mathlib.Core.Option
use sgard.Base.{
  ◌≡◌, ◌⊎◌, inl, inr, refl, ◌∙◌, sym, ap, Bool, true, false, Option, none, some, List, [], ◌∷◌,
  Text, ◌==◌, eq_iff, eq_refl, ne_false, if◌then◌else◌, Result, ok, err, for_each, for_each-nil,
  for_each-eq-ok, subst, >>=-eq-ok, arith, Bool-cases,
}
use sgard.Paths.{to_tilde_path, expand_tilde_path}
use sgard.Manifest.{Entry}
use sgard.Host.{Host}
use sgard.Garden.{Repo, files, find_entry, is_tracked, update_entry, save_manifest}
use sgard.Garden.Edit.{
  drop_path, resolve, remove_path, remove, lock_path, set_locked, target_entry, set_targeting,
}

pub find_entry-drop_path :
    (p q : Text) (es : List Entry)
    → find_entry q (drop_path p es) ≡ (if p == q then none else find_entry q es)
unfolding find_entry drop_path
find_entry-drop_path p q [] = ground arith
find_entry-drop_path p q (e ∷ es) =
    ground (arith, eq_iff e.path p, eq_iff e.path q, eq_iff p q, find_entry-drop_path p q es)

pub find_entry-update_entry :
    (p q : Text) (f : Entry → Entry) (es : List Entry)
    → ((e : Entry) → (f e).path ≡ e.path)
    → find_entry q (update_entry p f es)
      ≡ (if p == q then Option.map f (find_entry q es) else find_entry q es)
unfolding find_entry update_entry
find_entry-update_entry p q f [] h = ground arith
find_entry-update_entry p q f (e ∷ es) h =
    ground
      (arith, eq_iff e.path p, eq_iff e.path q, eq_iff p q, h e, find_entry-update_entry p q f es h)

-- The entry of a path with its flag set, none where there is none
abbrev pub relock : Bool → Option Entry → Option Entry
relock locked none = none
relock locked (some e) = some (record e { locked = locked })

relock-map :
    (locked : Bool) (o : Option Entry)
    → Option.map (λ (e : Entry). record e { locked = locked }) o ≡ relock locked o
relock-map locked none = refl
relock-map locked (some e) = refl

module _ (h : Host) where
  save_manifest-eq-ok : (s s' : Repo h) → save_manifest h s ≡ (ok tt, s') → files s' ≡ files s
  unfolding save_manifest
  save_manifest-eq-ok s s' e = sym (ap (λ (p : Result (Unit {0}) × Repo h). files p.1) e)

  remove_path-eq-ok :
      (p : Text) (s t : Repo h)
      → remove_path h p s ≡ (ok tt, t)
      → (q : Text) × (resolve h p ≡ ok q) × (files t ≡ drop_path q (files s))
  unfolding remove_path
  remove_path-eq-ok p s t e = ground arith

  -- The paths that the arguments name
  abbrev pub IsNamed : List Text → Text → Type 0
  IsNamed [] q = ⊥
  IsNamed (p ∷ ps) q = (resolve h p ≡ ok q) ⊎ IsNamed ps q

  -- The same as a test
  unfoldable pub is_named : List Text → Text → Bool
  is_named [] q = false
  is_named (p ∷ ps) q = elim (resolve h p) [
    | err x ↦ is_named ps q
    | ok q' ↦ if q' == q then true else is_named ps q
  ]

  pub is_named-IsNamed : (ps : List Text) (q : Text) → is_named ps q ≡ true → IsNamed ps q
  unfolding is_named
  is_named-IsNamed [] q n = ground arith
  is_named-IsNamed (p ∷ ps) q n = grind (arith, eq_iff, is_named-IsNamed ps q)

  is_named-not : (ps : List Text) (q : Text) → is_named ps q ≡ false → ¬ IsNamed ps q
  unfolding is_named
  is_named-not [] q n m = absurd m
  is_named-not (p ∷ ps) q n (inl e) = ground (arith, eq_refl q)
  is_named-not (p ∷ ps) q n (inr m) = ground (arith, is_named-not ps q)

  gone_next :
      (p q q' : Text) (ps : List Text) (es : List Entry)
      → resolve h p ≡ ok q'
      → (IsNamed (p ∷ ps) q ⊎ (find_entry q es ≡ none))
      → IsNamed ps q ⊎ (find_entry q (drop_path q' es) ≡ none)
  gone_next p q q' ps es r (inl (inl n)) =
      inr (ground (arith, find_entry-drop_path q' q es, eq_iff q' q))
  gone_next p q q' ps es r (inl (inr n)) = inl n
  gone_next p q q' ps es r (inr n) = inr (ground (arith, find_entry-drop_path q' q es))

  gone_last :
      (q : Text) (es : List Entry)
      → (IsNamed [] q ⊎ (find_entry q es ≡ none))
      → find_entry q es ≡ none
  gone_last q es (inl n) = absurd n
  gone_last q es (inr n) = n

  remove_loop_gone :
      (ps : List Text) (s s' : Repo h) (q : Text)
      → for_each ps (remove_path h) s ≡ (ok tt, s')
      → (IsNamed ps q ⊎ (find_entry q (files s) ≡ none))
      → find_entry q (files s') ≡ none
  remove_loop_gone [] s s' q e n =
      subst (λ (r : Repo h). find_entry q (files r) ≡ none) (for_each-nil (remove_path h) s s' e)
        (gone_last q (files s) n)
  remove_loop_gone (p ∷ ps) s s' q e n =
      let (t, first, rest) = for_each-eq-ok (remove_path h) p ps s s' e in
      let (q', r, f) = remove_path-eq-ok p s t first in
      remove_loop_gone ps t s' q rest (rw f (gone_next p q q' ps (files s) r n))

  remove_loop_other :
      (ps : List Text) (s s' : Repo h) (q : Text)
      → for_each ps (remove_path h) s ≡ (ok tt, s')
      → ¬ IsNamed ps q
      → find_entry q (files s') ≡ find_entry q (files s)
  remove_loop_other [] s s' q e n =
      ap (λ (r : Repo h). find_entry q (files r)) (sym (for_each-nil (remove_path h) s s' e))
  remove_loop_other (p ∷ ps) s s' q e n =
      let (t, first, rest) = for_each-eq-ok (remove_path h) p ps s s' e in
      let (q', r, f) = remove_path-eq-ok p s t first in
      remove_loop_other ps t s' q rest (λ m. n (inr m))
      ∙ rw f (
          find_entry-drop_path q' q (files s)
          ∙ rw (ne_false q' q (λ (same : q' ≡ q). n (inl (rw same at r)))))

  -- `Remove`, where it succeeds: no path that an argument names is tracked any more, and every other
  -- path has the entry, or none, that it had.
  pub remove_lem :
      (ps : List Text) (s s' : Repo h) (q : Text)
      → remove h ps s ≡ (ok tt, s')
      → find_entry q (files s') ≡ (if is_named ps q then none else find_entry q (files s))
  unfolding remove
  remove_lem ps s s' q e =
      let (_, t, loop, end) =
        >>=-eq-ok (for_each ps (remove_path h)) (λ _. save_manifest h) s tt s' e in
      rw (save_manifest-eq-ok t s' end) (elim (Bool-cases (is_named ps q)) [
        | inl n ↦ rw n (remove_loop_gone ps s t q loop (inl (is_named-IsNamed ps q n)))
        | inr n ↦ rw n (remove_loop_other ps s t q loop (is_named-not ps q n))
      ])

  lock_path-eq-ok :
      (locked : Bool) (p : Text) (s t : Repo h)
      → lock_path h locked p s ≡ (ok tt, t)
      → (q : Text) × (resolve h p ≡ ok q)
        × (files t ≡ update_entry q (λ e. record e { locked = locked }) (files s))
  unfolding lock_path
  lock_path-eq-ok locked p s t e = ground arith

  find_entry-relock :
      (locked : Bool) (p q : Text) (es : List Entry)
      → find_entry q (update_entry p (λ e. record e { locked = locked }) es)
        ≡ (if p == q then relock locked (find_entry q es) else find_entry q es)
  find_entry-relock locked p q es =
      rw (← relock-map)
        (find_entry-update_entry p q (λ e. record e { locked = locked }) es (λ e. refl))

  relock_idem :
      (locked : Bool) (o : Option Entry) → relock locked (relock locked o) ≡ relock locked o
  relock_idem locked none = refl
  relock_idem locked (some e) = refl

  lock_loop_stays :
      (locked : Bool) (ps : List Text) (s s' : Repo h) (q : Text) (o : Option Entry)
      → for_each ps (lock_path h locked) s ≡ (ok tt, s')
      → find_entry q (files s) ≡ relock locked o
      → find_entry q (files s') ≡ relock locked o
  lock_loop_stays locked [] s s' q o e k =
      subst (λ (r : Repo h). find_entry q (files r) ≡ relock locked o)
        (for_each-nil (lock_path h locked) s s' e) k
  lock_loop_stays locked (p ∷ ps) s s' q o e k =
      let (t, first, rest) = for_each-eq-ok (lock_path h locked) p ps s s' e in
      let (q', r, f) = lock_path-eq-ok locked p s t first in
      lock_loop_stays locked ps t s' q o rest
        (rw f (ground (arith, find_entry-relock locked q' q (files s), k, relock_idem locked o)))

  lock_loop_named :
      (locked : Bool) (ps : List Text) (s s' : Repo h) (q : Text)
      → for_each ps (lock_path h locked) s ≡ (ok tt, s')
      → IsNamed ps q
      → find_entry q (files s') ≡ relock locked (find_entry q (files s))
  lock_loop_named locked [] s s' q e n = absurd n
  lock_loop_named locked (p ∷ ps) s s' q e (inl n) =
      let (t, first, rest) = for_each-eq-ok (lock_path h locked) p ps s s' e in
      let (q', r, f) = lock_path-eq-ok locked p s t first in
      lock_loop_stays locked ps t s' q (find_entry q (files s)) rest
        (rw f (ground (arith, find_entry-relock locked q' q (files s), eq_iff q' q, n, r)))
  lock_loop_named locked (p ∷ ps) s s' q e (inr n) =
      let (t, first, rest) = for_each-eq-ok (lock_path h locked) p ps s s' e in
      let (q', r, f) = lock_path-eq-ok locked p s t first in
      lock_loop_named locked ps t s' q rest n
      ∙ rw f (
          ground (
            arith,
            find_entry-relock locked q' q (files s),
            relock_idem locked (find_entry q (files s)),
          ))

  lock_loop_other :
      (locked : Bool) (ps : List Text) (s s' : Repo h) (q : Text)
      → for_each ps (lock_path h locked) s ≡ (ok tt, s')
      → ¬ IsNamed ps q
      → find_entry q (files s') ≡ find_entry q (files s)
  lock_loop_other locked [] s s' q e n =
      ap (λ (r : Repo h). find_entry q (files r)) (sym (for_each-nil (lock_path h locked) s s' e))
  lock_loop_other locked (p ∷ ps) s s' q e n =
      let (t, first, rest) = for_each-eq-ok (lock_path h locked) p ps s s' e in
      let (q', r, f) = lock_path-eq-ok locked p s t first in
      lock_loop_other locked ps t s' q rest (λ m. n (inr m))
      ∙ rw f (
          find_entry-relock locked q' q (files s)
          ∙ rw (ne_false q' q (λ (same : q' ≡ q). n (inl (rw same at r)))))

  -- `Lock` (at true) and `Unlock` (at false), where they succeed: the entry of every path that an
  -- argument names has the flag and is otherwise as it was, and every other path has the entry, or
  -- none, that it had.
  pub set_locked_lem :
      (ps : List Text) (locked : Bool) (s s' : Repo h) (q : Text)
      → set_locked h ps locked s ≡ (ok tt, s')
      → find_entry q (files s')
        ≡ (if is_named ps q then relock locked (find_entry q (files s)) else find_entry q (files s))
  unfolding set_locked
  set_locked_lem ps locked s s' q e =
      let (_, t, loop, end) =
        >>=-eq-ok (for_each ps (lock_path h locked)) (λ _. save_manifest h) s tt s' e in
      rw (save_manifest-eq-ok t s' end) (elim (Bool-cases (is_named ps q)) [
        | inl n ↦ rw n (lock_loop_named locked ps s t q loop (is_named-IsNamed ps q n))
        | inr n ↦ rw n (lock_loop_other locked ps s t q loop (is_named-not ps q n))
      ])

  pub set_targeting-eq-ok :
      (p : Text) (only never : List Text) (clear : Bool) (s s' : Repo h)
      → set_targeting h p only never clear s ≡ (ok tt, s')
      → (x : Text) × (expand_tilde_path h.home p ≡ ok x)
        × (is_tracked (to_tilde_path h.home x) (files s) ≡ true)
        × (files s'
            ≡ update_entry (to_tilde_path h.home x) (target_entry only never clear) (files s))
  unfolding set_targeting save_manifest
  set_targeting-eq-ok p only never clear s s' e = ground arith
