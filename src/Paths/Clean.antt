-- ===== src/Paths/Clean.antt =====
-- A rooted path of ordinary components is clean.
use mathlib.Core.List.{reverse, append-nil, append_assoc, reverse-append, reverse-reverse}
use sgard.Base.{
  ℕ, length, drop, drop-append, ◌≡◌, refl, sym, ◌∙◌, ap, true, false, List, [], ◌∷◌, ◌++◌, Text,
  ◌==◌, eqb, All, All-append, arith,
}
use sgard.Paths.{
  put_head, dir_part, dir, base, slash, dot, dot_dot, split, join, intercalate, clean, clean_loop,
  clean_step,
}

-- A path component that `Clean` keeps.
pub record IsComponent (t : Text) : Type 0 where
  pub no_slash : All (λ c. eqb c slash ≡ false) t
  pub not_nil : (t == []) ≡ false
  pub not_dot : (t == dot) ≡ false
  pub not_dot_dot : (t == dot_dot) ≡ false

-- `/a/b/c`, and nothing for no component
abbrev pub render : List Text → Text
render [] = []
render (t ∷ ts) = slash ∷ (t ++ render ts)

split_no_slash : (t : Text) → All (λ c. eqb c slash ≡ false) t → split slash t ≡ t ∷ []
unfolding split
split_no_slash [] h = refl
split_no_slash (c ∷ t) h = ground (arith, h.0, split_no_slash t h.1)

split_at_slash :
    (t r : Text)
    → All (λ c. eqb c slash ≡ false) t
    → split slash (t ++ (slash ∷ r)) ≡ t ∷ split slash r
unfolding split
split_at_slash [] r h = refl
split_at_slash (c ∷ t) r h = ground (arith, h.0, split_at_slash t r h.1)

split-render :
    (t : Text) (ts : List Text)
    → IsComponent t
    → All IsComponent ts
    → split slash (t ++ render ts) ≡ t ∷ ts
split-render t [] h hs = rw append-nil (split_no_slash t h.no_slash)
split-render t (u ∷ us) h hs =
    split_at_slash t (u ++ render us) h.no_slash ∙ ap (λ l. t ∷ l) (split-render u us hs.0 hs.1)

step_component :
    (stack : List Text) (t : Text) → IsComponent t → clean_step true stack t ≡ t ∷ stack
unfolding clean_step
step_component stack [] h = unfold ◌==◌ in cc h.not_nil
step_component stack (c ∷ t) h = ground (arith, h.not_dot, h.not_dot_dot)

loop_components :
    (stack ts : List Text) → All IsComponent ts → clean_loop true stack ts ≡ reverse ts ++ stack
unfolding clean_loop
loop_components stack [] h = refl
loop_components stack (t ∷ ts) h =
    rw (step_component stack t h.0, loop_components (t ∷ stack) ts h.1)
      (simp (reverse-append (t ∷ []) ts, append_assoc))

pub intercalate-render :
    (t : Text) (ts : List Text) → intercalate (slash ∷ []) (t ∷ ts) ≡ t ++ render ts
unfolding intercalate
intercalate-render t [] = rw append-nil
intercalate-render t (u ∷ us) = rw (intercalate-render u us)

-- `Clean` leaves a rooted path of ordinary components as it is.
pub clean-render :
    (t : Text) (ts : List Text)
    → All IsComponent (t ∷ ts)
    → clean (render (t ∷ ts)) ≡ render (t ∷ ts)
unfolding clean
clean-render t ts h =
    rw (split-render t ts h.0 h.1, loop_components [] (t ∷ ts) h)
      (simp (append-nil, reverse-reverse) (ap (λ p. slash ∷ p) (intercalate-render t ts)))

pub render-append : (ts us : List Text) → render (ts ++ us) ≡ render ts ++ render us
render-append [] us = refl
render-append (t ∷ ts) us = simp (render-append ts us, append_assoc)

-- The join of a rooted path and a relative one is the path of both.
pub join-render :
    (h : Text) (hs : List Text) (t : Text) (ts : List Text)
    → All IsComponent (h ∷ hs)
    → All IsComponent (t ∷ ts)
    → join (render (h ∷ hs)) (t ++ render ts) ≡ render (h ∷ hs) ++ render (t ∷ ts)
unfolding join
join-render h hs t ts a b =
    ap clean (sym (render-append (h ∷ hs) (t ∷ ts)))
    ∙ clean-render h (hs ++ (t ∷ ts)) (a.0, All-append IsComponent hs (t ∷ ts) a.1 b)
    ∙ render-append (h ∷ hs) (t ∷ ts)

split_no_slash_end :
    (t : Text) → All (λ c. eqb c slash ≡ false) t → split slash (t ++ (slash ∷ [])) ≡ t ∷ [] ∷ []
unfolding split
split_no_slash_end t h = split_at_slash t [] h

split-render_end :
    (t : Text) (ts : List Text)
    → IsComponent t
    → All IsComponent ts
    → split slash (t ++ (render ts ++ (slash ∷ []))) ≡ (t ∷ ts) ++ ([] ∷ [])
split-render_end t [] h hs = split_no_slash_end t h.no_slash
split-render_end t (u ∷ us) h hs =
    ap (λ r. split slash (t ++ (slash ∷ r))) (append_assoc u (render us) (slash ∷ []))
    ∙ split_at_slash t (u ++ (render us ++ (slash ∷ []))) h.no_slash
    ∙ ap (λ l. t ∷ l) (split-render_end u us hs.0 hs.1)

loop_components_end :
    (stack ts : List Text)
    → All IsComponent ts
    → clean_loop true stack (ts ++ ([] ∷ [])) ≡ reverse ts ++ stack
unfolding clean_loop
loop_components_end stack [] h = unfold clean_step in refl
loop_components_end stack (t ∷ ts) h =
    ap (λ st. clean_loop true st (ts ++ ([] ∷ []))) (step_component stack t h.0)
    ∙ loop_components_end (t ∷ stack) ts h.1
    ∙ simp (reverse-append (t ∷ []) ts, append_assoc)

-- `Clean` takes a final slash away.
pub clean-render_end :
    (t : Text) (ts : List Text)
    → All IsComponent (t ∷ ts)
    → clean (render (t ∷ ts) ++ (slash ∷ [])) ≡ render (t ∷ ts)
unfolding clean
clean-render_end t ts h =
    rw
      (
        append_assoc t (render ts) (slash ∷ []),
        split-render_end t ts h.0 h.1,
        loop_components_end [] (t ∷ ts) h,
      )
      (simp (append-nil, reverse-reverse) (ap (λ p. slash ∷ p) (intercalate-render t ts)))

dir_part_no_slash : (t : Text) → All (λ c. eqb c slash ≡ false) t → dir_part t ≡ []
unfolding dir_part
dir_part_no_slash [] h = refl
dir_part_no_slash (c ∷ t) h = ground (arith, h.0, dir_part_no_slash t h.1)

dir_part-slash : (t : Text) → All (λ c. eqb c slash ≡ false) t → dir_part (slash ∷ t) ≡ slash ∷ []
unfolding dir_part
dir_part-slash t h = rw (dir_part_no_slash t h)

dir_part-append :
    (p t : Text)
    → All (λ c. eqb c slash ≡ false) t
    → dir_part (p ++ (slash ∷ t)) ≡ p ++ (slash ∷ [])
unfolding dir_part
dir_part-append [] t h = dir_part-slash t h
dir_part-append (c ∷ p) t h = rw (dir_part-append p t h) (put_head-append c p)
  where
    put_head-append : (c : ℕ) (p : Text) → put_head c (p ++ (slash ∷ [])) ≡ c ∷ (p ++ (slash ∷ []))
    put_head-append c [] = refl
    put_head-append c (d ∷ p) = refl

-- The directory of a file in a rooted directory
pub dir-render :
    (t : Text) (ts : List Text) (name : Text)
    → All IsComponent (t ∷ ts)
    → IsComponent name
    → dir (render (t ∷ ts) ++ (slash ∷ name)) ≡ render (t ∷ ts)
unfolding dir
dir-render t ts name h n =
    ap clean (dir_part-append (render (t ∷ ts)) name n.no_slash) ∙ clean-render_end t ts h

-- The name of a file in a directory
pub base-append : (p t : Text) → All (λ c. eqb c slash ≡ false) t → base (p ++ (slash ∷ t)) ≡ t
unfolding base
base-append p t h =
    ap (λ d. drop (length d) (p ++ (slash ∷ t))) (dir_part-append p t h)
    ∙ ap (λ q. drop (length (p ++ (slash ∷ []))) q) (sym (append_assoc p (slash ∷ []) t))
    ∙ drop-append (p ++ (slash ∷ [])) t
