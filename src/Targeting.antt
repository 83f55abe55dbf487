-- ===== src/Targeting.antt =====
-- garden/target.go: which entries are active on a machine.
pub mod Laws
use sgard.Base.{
  Bool, true, false, List, [], ◌∷◌, Text, ◌==◌, to_lower, if◌then◌else◌, Result, ok, err,
  only_and_never,
}
use sgard.Manifest.{Entry}

-- `len(l) > 0`
abbrev pub is_nonempty {ℓ} : {A : Type ℓ} → List A → Bool
is_nonempty [] = false
is_nonempty (x ∷ xs) = true

-- The loop of `matchesLabel`, the matcher already in lower case
label_among : Text → List Text → Bool
label_among matcher [] = false
label_among matcher (label ∷ labels) =
    if to_lower label == matcher then true else label_among matcher labels

-- `matchesLabel`
unfoldable pub matches_label : Text → List Text → Bool
unfolding label_among
matches_label matcher labels = label_among (to_lower matcher) labels

-- The loops of `EntryApplies` over `Only` and over `Never`: does a matcher match?
unfoldable pub any_matches : List Text → List Text → Bool
any_matches [] labels = false
any_matches (matcher ∷ rest) labels =
    if matches_label matcher labels then true else any_matches rest labels

-- `EntryApplies`
unfoldable pub entry_applies : Entry → List Text → Result Bool
entry_applies entry labels =
    if is_nonempty entry.only
    then if is_nonempty entry.never
      then err (only_and_never entry.path)
      else ok (any_matches entry.only labels)
    else if is_nonempty entry.never
    then if any_matches entry.never labels then ok false else ok true
    else ok true
