-- ===== src/Targeting/Laws.antt =====
-- What `EntryApplies` decides.
use sgard.Base.{
  ◌≡◌, ◌≢◌, ◌↔◌, ◌⊎◌, inl, inr, refl, true, false, List, [], ◌∷◌, Text, eq_iff, to_lower, Any, ok,
  Error, err, only_and_never, arith,
}
use sgard.Manifest.{Entry}
use sgard.Targeting.{is_nonempty, label_among, matches_label, any_matches, entry_applies}

-- A matcher and some label are the same text but for the case of letters.
abbrev pub Matches : Text → List Text → Type 0
Matches matcher labels = Any (λ label. to_lower label ≡ to_lower matcher) labels

abbrev pub MatchesSome : List Text → List Text → Type 0
MatchesSome matchers labels = Any (λ matcher. Matches matcher labels) matchers

label_among_iff :
    (matcher : Text) (labels : List Text)
    → (label_among matcher labels ≡ true) ↔ Any (λ label. to_lower label ≡ matcher) labels
unfolding label_among
label_among_iff matcher [] = (λ h. cc, λ h. absurd h)
label_among_iff matcher (l ∷ labels) =
    ground (arith, eq_iff (to_lower l) matcher, label_among_iff matcher labels)

matches_label_iff :
    (matcher : Text) (labels : List Text)
    → (matches_label matcher labels ≡ true) ↔ Matches matcher labels
unfolding matches_label
matches_label_iff matcher labels = label_among_iff (to_lower matcher) labels

any_matches_iff :
    (matchers labels : List Text)
    → (any_matches matchers labels ≡ true) ↔ MatchesSome matchers labels
unfolding any_matches
any_matches_iff [] labels = (λ h. cc, λ h. absurd h)
any_matches_iff (m ∷ ms) labels =
    ground (arith, matches_label_iff m labels, any_matches_iff ms labels)

-- The entry is for this machine: one of its `only` labels is here and there is no `never`, or there
-- is no `only` and none of its `never` labels is here.
abbrev pub IsActive : Entry → List Text → Type 0
IsActive e labels =
    (MatchesSome e.only labels × (e.never ≡ [])) ⊎ ((e.only ≡ []) × ¬ MatchesSome e.never labels)

nonempty_iff : (l : List Text) → (is_nonempty l ≡ false) ↔ (l ≡ [])
nonempty_iff [] = ground arith
nonempty_iff (x ∷ l) = ground arith

some_nonempty : (l labels : List Text) → MatchesSome l labels → is_nonempty l ≡ true
some_nonempty [] labels h = absurd h
some_nonempty (x ∷ l) labels h = refl

module _ (e : Entry) (labels : List Text) where
  IsActive-forward : entry_applies e labels ≡ ok true → IsActive e labels
  unfolding entry_applies
  IsActive-forward h = grind (
    arith,
    any_matches_iff e.only labels,
    any_matches_iff e.never labels,
    nonempty_iff e.only,
    nonempty_iff e.never,
  )

  IsActive-backward : IsActive e labels → entry_applies e labels ≡ ok true
  unfolding entry_applies
  IsActive-backward (inl (m, n)) =
      ground
        (arith, any_matches_iff e.only labels, some_nonempty e.only labels m, nonempty_iff e.never)
  IsActive-backward (inr (n, m)) =
      ground (arith, any_matches_iff e.never labels, nonempty_iff e.only)

  -- `EntryApplies` returns true without an error exactly when the entry is for this machine, letters
  -- compared without regard to case.
  pub entry_applies_iff : (entry_applies e labels ≡ ok true) ↔ IsActive e labels
  entry_applies_iff = (IsActive-forward, IsActive-backward)

  -- `EntryApplies` fails, with whatever error, exactly when both lists have labels and the error is
  -- the one that names the entry.
  pub entry_applies-err_iff :
      (x : Error)
      → (entry_applies e labels ≡ err x)
        ↔ ((e.only ≢ []) × (e.never ≢ []) × (x ≡ only_and_never e.path))
  unfolding entry_applies
  entry_applies-err_iff x = ground (arith, nonempty_iff e.only, nonempty_iff e.never)
