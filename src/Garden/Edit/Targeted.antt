-- ===== src/Garden/Edit/Targeted.antt =====
-- `SetTargeting` against `EntryApplies`.
use sgard.Base.{
  ◌≡◌, ◌≢◌, ◌||◌, Bool, true, false, [], ◌∷◌, some, List, Text, eq_refl, ok, is_ok, arith, refl,
  ◌∙◌,
}
use sgard.Paths.{to_tilde_path, expand_tilde_path}
use sgard.Manifest.{Entry}
use sgard.Targeting.{is_nonempty, entry_applies}
use sgard.Host.{Host}
use sgard.Garden.{Repo, files, find_entry, is_tracked}
use sgard.Garden.Edit.{target_entry, set_targeting}
use sgard.Garden.Edit.Laws.{find_entry-update_entry, set_targeting-eq-ok}

pub target_entry-applies :
    (only never labels : List Text) (clear : Bool) (e : Entry)
    → (clear || (is_nonempty only || is_nonempty never)) ≡ true
    → is_ok (entry_applies (target_entry only never clear e) labels) ≡ true
unfolding target_entry entry_applies
target_entry-applies only never labels clear e changed = ground arith

target_entry-path :
    (only never : List Text) (clear : Bool) (e : Entry)
    → (target_entry only never clear e).path ≡ e.path
unfolding target_entry
target_entry-path only never clear e = ground arith

tracked_entry :
    (q : Text) (es : List Entry) → is_tracked q es ≡ true → (e : Entry) × (find_entry q es ≡ some e)
unfolding is_tracked
tracked_entry q es k = ground arith

-- What an entry is to be after a change of its labels: without labels after a clear, else with `never`
-- as its only labels where `never` is given, else with `only` as its only labels where `only` is
-- given, else as it was; and as it was in all but its labels.
abbrev pub Relabelled : List Text → List Text → Bool → Entry → Entry → Type 0
Relabelled only never clear e e' =
    (clear ≡ true → (e'.only ≡ []) × (e'.never ≡ []))
    × (clear ≡ false → never ≢ [] → (e'.only ≡ []) × (e'.never ≡ never))
    × (clear ≡ false → never ≡ [] → only ≢ [] → (e'.only ≡ only) × (e'.never ≡ []))
    × (clear ≡ false → never ≡ [] → only ≡ [] → e' ≡ e)
    × (e' ≡ record e { only = e'.only; never = e'.never })

target_entry-Relabelled :
    (only never : List Text) (clear : Bool) (e : Entry)
    → Relabelled only never clear e (target_entry only never clear e)
unfolding target_entry
target_entry-Relabelled only never true e =
    ((λ _. (refl, refl)), (λ q. cc q), (λ q. cc q), (λ q. cc q), refl)
target_entry-Relabelled [] [] false e =
    ((λ q. cc q), (λ _ n. absurd (n refl)), (λ _ _ n. absurd (n refl)), (λ _ _ _. refl), refl)
target_entry-Relabelled (o ∷ os) [] false e =
    ((λ q. cc q), (λ _ n. absurd (n refl)), (λ _ _ _. (refl, refl)), (λ _ _ q. cc q), refl)
target_entry-Relabelled [] (n ∷ ns) false e =
    ((λ q. cc q), (λ _ _. (refl, refl)), (λ _ q. cc q), (λ _ q. cc q), refl)
target_entry-Relabelled (o ∷ os) (n ∷ ns) false e =
    ((λ q. cc q), (λ _ _. (refl, refl)), (λ _ q. cc q), (λ _ q. cc q), refl)

module _ (h : Host) where
  -- `SetTargeting`, where it succeeds: of the path there is an entry, and after it there is one with
  -- no labels after a clear, else with `never` as its only labels where `never` is given, else with
  -- `only` as its only labels where `only` is given, else as it was; in all but its labels it is as
  -- it was. Where the call clears or names a label, it can be decided on every machine whether the
  -- entry is active.
  pub set_targeting_lem :
      (p : Text) (only never : List Text) (clear : Bool) (s s' : Repo h) (labels : List Text)
      → set_targeting h p only never clear s ≡ (ok tt, s')
      → (x : Text) × (expand_tilde_path h.home p ≡ ok x)
        × (e : Entry) × (find_entry (to_tilde_path h.home x) (files s) ≡ some e)
        × (e' : Entry) × (find_entry (to_tilde_path h.home x) (files s') ≡ some e')
        × Relabelled only never clear e e'
        × ((clear || (is_nonempty only || is_nonempty never)) ≡ true
            → is_ok (entry_applies e' labels) ≡ true)
  set_targeting_lem p only never clear s s' labels ran =
      let (x, ex, tracked, after) = set_targeting-eq-ok h p only never clear s s' ran in
      let q = to_tilde_path h.home x in
      let (e, found) = tracked_entry q (files s) tracked in
      (
        x,
        ex,
        e,
        found,
        target_entry only never clear e,
        rw after (
            find_entry-update_entry q q (target_entry only never clear) (files s)
              (target_entry-path only never clear)
            ∙ rw (eq_refl q, found) refl),
        target_entry-Relabelled only never clear e,
        target_entry-applies only never labels clear e,
      )
