-- ===== src/Auth/Tokens.antt =====
-- client/auth.go: the token of the client, in memory and in its file. `state_home` is the value of
-- XDG_STATE_HOME, empty where it is not set.
pub mod Cached
use sgard.Base.{
  ℕ, Bool, true, false, ◌||◌, Option, none, some, List, [], ◌∷◌, ◌++◌, Text, codes, ◌==◌, eqb, leb,
  ◌&&◌, if◌then◌else◌, Result, ok, err, and_then, Exec, ◌>>=◌, ◌>>◌,
}
use mathlib.Core.List.{reverse}
use sgard.Paths.{join, dir}
use sgard.Host.{Host}

-- The white space of ASCII
abbrev pub is_space : ℕ → Bool
is_space c = (leb 9 c && leb c 13) || eqb c 32

unfoldable pub trim_left : Text → Text
trim_left [] = []
trim_left (c ∷ s) = let rest = trim_left s in if is_space c then rest else c ∷ s

-- strings.TrimSpace, of a text whose white space is that of ASCII
unfoldable pub trim_space : Text → Text
trim_space s = reverse (trim_left (reverse (trim_left s)))

-- `GetRequestMetadata`: the values that it sends for x-sgard-auth-token
unfoldable pub request_metadata : Text → List Text
request_metadata token = if token == [] then [] else token ∷ []

module _ (h : Host) (state_home : Text) where
  -- `TokenPath`
  unfoldable pub token_path : Result Text
  token_path =
      let below = λ (home : Text). ok (join (join home (codes "sgard")) (codes "token")) in
      if state_home == []
      then and_then h.home (λ home. below (join (join home (codes ".local")) (codes "state")))
      else below state_home

  -- `LoadCachedToken`
  unfoldable pub load_cached_token : h.State → Text
  load_cached_token s = elim token_path [
    | err _ ↦ []
    | ok path ↦ elim (h.read_file path s) [ err _ ↦ [] | ok bytes ↦ trim_space bytes ]
  ]

  -- `SaveToken`
  unfoldable pub save_token : Text → Exec h.State (Unit {0})
  save_token token s = elim token_path [
    | err x ↦ (err x, s)
    | ok path ↦ (h.mkdir_all (dir path) 0o700 >> h.write_file path (token ++ (10 ∷ [])) 0o600) s
  ]
