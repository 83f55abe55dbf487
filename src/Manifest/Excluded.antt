-- ===== src/Manifest/Excluded.antt =====
-- What `IsExcluded` decides.
use mathlib.Core.List.{reverse, reverse-append, reverse-reverse, append_assoc}
use sgard.Base.{
  ◌≡◌, ◌↔◌, ◌⊎◌, inl, inr, sym, ap, ◌∙◌, true, false, List, [], ◌∷◌, ◌++◌, Text, eq_iff, has_prefix,
  has_suffix, prefix-append, prefix-append-drop, length, drop, Any, Bool-cases, arith,
}
use sgard.Paths.{slash}
use sgard.Manifest.{Manifest, with_slash, matches_any, is_excluded}

-- `p` lies below the directory `ex`, which may be written with its final slash or without it.
abbrev pub IsUnder : Text → Text → Type 0
IsUnder ex p =
    ((rest : Text) × (p ≡ ex ++ (slash ∷ rest)))
    ⊎ ((d : Text) × (rest : Text) × (ex ≡ d ++ (slash ∷ [])) × (p ≡ ex ++ rest))

prefix_iff : (p q : Text) → (has_prefix p q ≡ true) ↔ ((rest : Text) × (p ≡ q ++ rest))
prefix_iff p q = (
  λ h. (drop (length q) p, sym (prefix-append-drop p q h)),
  λ (rest, e). rw e (prefix-append q rest),
)

suffix_slash :
    (ex : Text) → has_suffix ex (slash ∷ []) ≡ true → (d : Text) × (ex ≡ d ++ (slash ∷ []))
unfolding has_suffix
suffix_slash ex h =
    let r = drop 1 (reverse ex) in
    (
      reverse r,
      sym (reverse-reverse ex)
          ∙ ap reverse (sym (prefix-append-drop (reverse ex) (slash ∷ []) h))
          ∙ reverse-append (slash ∷ []) r,
    )

slash_suffix : (d : Text) → has_suffix (d ++ (slash ∷ [])) (slash ∷ []) ≡ true
unfolding has_suffix
slash_suffix d = rw (reverse-append d (slash ∷ [])) (prefix-append (slash ∷ []) (reverse d))

with_slash_suffixed : (ex : Text) → has_suffix ex (slash ∷ []) ≡ true → with_slash ex ≡ ex
unfolding with_slash
with_slash_suffixed ex e = rw e

with_slash_plain :
    (ex : Text) → has_suffix ex (slash ∷ []) ≡ false → with_slash ex ≡ ex ++ (slash ∷ [])
unfolding with_slash
with_slash_plain ex e = rw e

under_suffixed :
    (ex p : Text)
    → has_suffix ex (slash ∷ []) ≡ true
    → IsUnder ex p
    → (rest : Text) × (p ≡ ex ++ rest)
under_suffixed ex p e (inl (rest, q)) = (slash ∷ rest, q)
under_suffixed ex p e (inr (d, rest, _, q)) = (rest, q)

under_plain :
    (ex p : Text)
    → has_suffix ex (slash ∷ []) ≡ false
    → IsUnder ex p
    → (rest : Text) × (p ≡ (ex ++ (slash ∷ [])) ++ rest)
under_plain ex p e (inl (rest, q)) = (rest, q ∙ sym (append_assoc ex (slash ∷ []) rest))
under_plain ex p e (inr (d, rest, s, q)) = absurd (no_suffix s)
  where
    no_suffix : ex ≡ d ++ (slash ∷ []) → ⊥
    no_suffix s = cc (e, ap (λ t. has_suffix t (slash ∷ [])) s, slash_suffix d)

-- The prefix test of the loop, for one exclude entry
IsUnder-iff : (ex p : Text) → (has_prefix p (with_slash ex) ≡ true) ↔ IsUnder ex p
IsUnder-iff ex p = elim (Bool-cases (has_suffix ex (slash ∷ []))) [
  | inl e ↦ rw (with_slash_suffixed ex e) (
    λ h.
        let (rest, q) = (prefix_iff p ex).0 h in
        let (d, s) = suffix_slash ex e in inr (d, rest, s, q),
    λ u. (prefix_iff p ex).1 (under_suffixed ex p e u),
  )
  | inr e ↦ rw (with_slash_plain ex e) (
    λ h. let (rest, q) = (prefix_iff p _).0 h in inl (rest, q ∙ append_assoc ex (slash ∷ []) rest),
    λ u. (prefix_iff p _).1 (under_plain ex p e u),
  )
]

matches_any_iff :
    (p : Text) (l : List Text) → (matches_any p l ≡ true) ↔ Any (λ ex. (p ≡ ex) ⊎ IsUnder ex p) l
unfolding matches_any
matches_any_iff p [] = (λ h. cc, λ h. absurd h)
matches_any_iff p (ex ∷ l) = ground (arith, eq_iff p ex, IsUnder-iff ex p, matches_any_iff p l)

-- A path is excluded exactly when it is an exclude entry, or lies below one as a directory.
pub is_excluded_iff :
    (m : Manifest) (p : Text)
    → (is_excluded m p ≡ true) ↔ Any (λ ex. (p ≡ ex) ⊎ IsUnder ex p) m.exclude
unfolding is_excluded
is_excluded_iff m p = matches_any_iff p m.exclude
