-- ===== src/Paths.antt =====
-- Package path/filepath on Unix, as far as the program uses it, and the tilde paths of
-- garden/garden.go. A path is a text; `Clean` works on the list of its components.
pub mod Clean
pub mod RoundTrip
use mathlib.Core.List.{reverse}
use sgard.Base.{
  ℕ, ◌+◌, ◌≡◌, Bool, true, false, ◌&&◌, ◌||◌, not, List, [], ◌∷◌, ◌++◌, Text, codes, ◌==◌,
  has_prefix, eqb, if◌then◌else◌, length, drop, Result, ok, err, and_then,
}

abbrev pub slash : ℕ
slash = b'/'

abbrev pub dot : Text
dot = b'.' ∷ []

abbrev pub dot_dot : Text
dot_dot = b'.' ∷ b'.' ∷ []

abbrev pub tilde : Text
tilde = b'~' ∷ []

abbrev pub tilde_slash : Text
tilde_slash = b'~' ∷ slash ∷ []

cons_head : ℕ → List Text → List Text
cons_head c [] = (c ∷ []) ∷ []
cons_head c (t ∷ ts) = (c ∷ t) ∷ ts

-- strings.Split by one byte
unfoldable pub split : ℕ → Text → List Text
unfolding cons_head
split b [] = [] ∷ []
split b (c ∷ s) = let rest = split b s in if eqb c b then [] ∷ rest else cons_head c rest

-- strings.Join
unfoldable pub intercalate : Text → List Text → Text
intercalate sep [] = []
intercalate sep (t ∷ []) = t
intercalate sep (t ∷ u ∷ ts) = t ++ (sep ++ intercalate sep (u ∷ ts))

-- One component, on the stack of those before it, the last one first.
abbrev pub go_up : Bool → List Text → List Text
go_up true [] = []
go_up false [] = dot_dot ∷ []
go_up true (t ∷ stack) = stack
go_up false (t ∷ stack) = if t == dot_dot then dot_dot ∷ t ∷ stack else stack

clean_step : Bool → List Text → Text → List Text
clean_step rooted stack [] = stack
clean_step rooted stack (c ∷ s) =
    if (c ∷ s) == dot
    then stack
    else if (c ∷ s) == dot_dot
    then go_up rooted stack
    else (c ∷ s) ∷ stack

clean_loop : Bool → List Text → List Text → List Text
clean_loop rooted stack [] = stack
clean_loop rooted stack (t ∷ ts) = clean_loop rooted (clean_step rooted stack t) ts

or_dot : Text → Text
or_dot [] = dot
or_dot (c ∷ s) = c ∷ s

unfoldable pub is_abs : Text → Bool
is_abs [] = false
is_abs (c ∷ s) = eqb c slash

-- filepath.Clean
unfoldable pub clean : Text → Text
unfolding is_abs split clean_loop clean_step or_dot intercalate ◌==◌
clean p =
    let body = intercalate (slash ∷ []) (reverse (clean_loop (is_abs p) [] (split slash p))) in
    if is_abs p then slash ∷ body else or_dot body

-- filepath.Join of two elements
unfoldable pub join : Text → Text → Text
join [] [] = []
join [] (c ∷ s) = clean (c ∷ s)
join (c ∷ s) p = clean ((c ∷ s) ++ (slash ∷ p))

-- filepath.Join
unfoldable pub join_all : List Text → Text
join_all [] = []
join_all ([] ∷ ts) = join_all ts
join_all ((c ∷ s) ∷ ts) = clean (intercalate (slash ∷ []) ((c ∷ s) ∷ ts))

put_head : ℕ → Text → Text
put_head c [] = if eqb c slash then c ∷ [] else []
put_head c (x ∷ d) = c ∷ x ∷ d

-- A path up to its last slash
unfoldable pub dir_part : Text → Text
unfolding put_head
dir_part [] = []
dir_part (c ∷ s) = put_head c (dir_part s)

-- filepath.Base, of a path that does not end in a slash
unfoldable pub base : Text → Text
unfolding dir_part
base p = drop (length (dir_part p)) p

-- filepath.Dir
unfoldable pub dir : Text → Text
unfolding dir_part
dir p = clean (dir_part p)

-- filepath.Abs, from the working directory
unfoldable pub abs : Result Text → Text → Result Text
unfolding is_abs
abs cwd p = if is_abs p then ok (clean p) else and_then cwd (λ wd. ok (join wd p))

-- `toTildePath`
unfoldable pub to_tilde_path : Result Text → Text → Text
to_tilde_path (err e) abs_path = abs_path
to_tilde_path (ok home) abs_path =
    if abs_path == home
    then tilde
    else if has_prefix abs_path (home ++ (slash ∷ []))
    then tilde_slash ++ drop (length (home ++ (slash ∷ []))) abs_path
    else abs_path

-- `ExpandTildePath`
unfoldable pub expand_tilde_path : Result Text → Text → Result Text
expand_tilde_path home p =
    if p == tilde || has_prefix p tilde_slash
    then and_then home (λ h. if p == tilde then ok h else ok (join h (drop 2 p)))
    else ok p
