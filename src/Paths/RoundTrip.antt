-- ===== src/Paths/RoundTrip.antt =====
-- `toTildePath` and `ExpandTildePath` undo one another.
use mathlib.Core.List.{append_assoc}
use sgard.Base.{
  ◌≡◌, refl, ◌∙◌, sym, ap, true, false, List, [], ◌∷◌, ◌++◌, ℕ, length-append, Text, ◌==◌, eq_iff,
  eq_refl, ne_false, Bool-cases, inl, inr, has_prefix, prefix-append-drop, prefix-append, length,
  drop, drop-append, All, Result, ok, arith, ◌≢◌,
}
use sgard.Paths.{slash, tilde, tilde_slash, clean, join, to_tilde_path, expand_tilde_path}
use sgard.Paths.Clean.{IsComponent, render, clean-render, join-render}

to_tilde_path_home : (home : Text) → to_tilde_path (ok home) home ≡ tilde
unfolding to_tilde_path
to_tilde_path_home home = ground (arith, eq_refl home)

to_tilde_path_under :
    (home p : Text)
    → (p == home) ≡ false
    → has_prefix p (home ++ (slash ∷ [])) ≡ true
    → to_tilde_path (ok home) p ≡ tilde_slash ++ drop (length (home ++ (slash ∷ []))) p
unfolding to_tilde_path
to_tilde_path_under home p h k = ground arith

to_tilde_path_other :
    (home p : Text)
    → (p == home) ≡ false
    → has_prefix p (home ++ (slash ∷ [])) ≡ false
    → to_tilde_path (ok home) p ≡ p
unfolding to_tilde_path
to_tilde_path_other home p h k = ground arith

expand_tilde_path_home : (home : Text) → expand_tilde_path (ok home) tilde ≡ ok home
unfolding expand_tilde_path ◌==◌
expand_tilde_path_home home = refl

pub expand_tilde_path_under :
    (home rest : Text) → expand_tilde_path (ok home) (tilde_slash ++ rest) ≡ ok (join home rest)
unfolding expand_tilde_path ◌==◌ has_prefix
expand_tilde_path_under home rest = refl

pub expand_tilde_path_rooted :
    (home : Result Text) (p : Text) → expand_tilde_path home (slash ∷ p) ≡ ok (slash ∷ p)
unfolding expand_tilde_path ◌==◌ has_prefix
expand_tilde_path_rooted home p = refl

join_cons : (home rest : Text) → home ≢ [] → join home rest ≡ clean (home ++ (slash ∷ rest))
unfolding join
join_cons [] rest h = absurd (h refl)
join_cons (c ∷ home) rest h = refl

-- The path below the home directory, cut off and put back.
join_rest :
    (home t : Text) (ts : List Text)
    → home ≢ []
    → All IsComponent (t ∷ ts)
    → has_prefix (render (t ∷ ts)) (home ++ (slash ∷ [])) ≡ true
    → join home (drop (length (home ++ (slash ∷ []))) (render (t ∷ ts))) ≡ render (t ∷ ts)
join_rest home t ts h a under =
    join_cons home _ h
    ∙ ap clean (
        sym (append_assoc home (slash ∷ []) _)
        ∙ prefix-append-drop (render (t ∷ ts)) (home ++ (slash ∷ [])) under)
    ∙ clean-render t ts a

-- With a home directory that is not the empty text, expanding the tilde form of a rooted clean path
-- gives the path back, whether or not it lies under the home directory.
pub expand_tilde_path-to_tilde_path :
    (home t : Text) (ts : List Text)
    → home ≢ []
    → All IsComponent (t ∷ ts)
    → expand_tilde_path (ok home) (to_tilde_path (ok home) (render (t ∷ ts))) ≡ ok (render (t ∷ ts))
expand_tilde_path-to_tilde_path home t ts h a = elim (Bool-cases (p == home)) [
  | inl e ↦ rw ((eq_iff p home).0 e, to_tilde_path_home home) (expand_tilde_path_home home)
  | inr other ↦ elim (Bool-cases (has_prefix p (home ++ (slash ∷ [])))) [
    | inl under ↦
        rw (to_tilde_path_under home p other under, expand_tilde_path_under)
          (ap ok (join_rest home t ts h a under))
    | inr out ↦ rw (to_tilde_path_other home p other out) (expand_tilde_path_rooted (ok home) _)
  ]
]
  where
    p : Text
    p = render (t ∷ ts)

longer : (s : Text) (c : ℕ) (r : Text) → s ++ (c ∷ r) ≢ s
longer s c r e = omega (arith, length-append s (c ∷ r), ap length e)

-- With a home directory of at least one component, the tilde form of an expanded `~/a/b` is
-- `~/a/b` again.
pub to_tilde_path-expand_tilde_path :
    (h : Text) (hs : List Text) (t : Text) (ts : List Text)
    → All IsComponent (h ∷ hs)
    → All IsComponent (t ∷ ts)
    → let home = render (h ∷ hs) in
      (p : Text) × (expand_tilde_path (ok home) (tilde_slash ++ (t ++ render ts)) ≡ ok p)
      × (to_tilde_path (ok home) p ≡ tilde_slash ++ (t ++ render ts))
to_tilde_path-expand_tilde_path h hs t ts a b = (
  home ++ render (t ∷ ts),
  expand_tilde_path_under home _ ∙ ap ok (join-render h hs t ts a b),
  to_tilde_path_under home _ (ne_false _ _ (longer home slash _)) prefix
      ∙ ap (λ r. tilde_slash ++ r) rest,
)
  where
    home : Text
    home = render (h ∷ hs)

    split_home : home ++ render (t ∷ ts) ≡ (home ++ (slash ∷ [])) ++ (t ++ render ts)
    split_home = sym (append_assoc home (slash ∷ []) _)

    prefix : has_prefix (home ++ render (t ∷ ts)) (home ++ (slash ∷ [])) ≡ true
    prefix = rw split_home (prefix-append (home ++ (slash ∷ [])) _)

    rest : drop (length (home ++ (slash ∷ []))) (home ++ render (t ∷ ts)) ≡ t ++ render ts
    rest = rw split_home (drop-append (home ++ (slash ∷ [])) _)
