-- ===== src/Garden/Identity.antt =====
-- garden/identity.go and garden/tags.go: the labels of this machine, and its tags.
use mathlib.Core.List.{reverse}
use sgard.Base.{
  ℕ, Bool, true, false, ◌||◌, List, [], ◌∷◌, ◌++◌, map, Text, codes, ◌==◌, to_lower, eqb,
  if◌then◌else◌, Result, ok, err, Exec,
}
use sgard.Paths.{split, intercalate, join}
use sgard.Host.{Host}

abbrev pub newline : ℕ
newline = 10

abbrev is_space : ℕ → Bool
is_space c = eqb c 32 || eqb c 9 || eqb c 10 || eqb c 11 || eqb c 12 || eqb c 13

trim_left : Text → Text
trim_left [] = []
trim_left (c ∷ s) = if is_space c then trim_left s else c ∷ s

-- strings.TrimSpace
unfoldable pub trim_space : Text → Text
unfolding trim_left
trim_space s = reverse (trim_left (reverse (trim_left s)))

-- The text before the first dot
unfoldable pub before_dot : Text → Text
before_dot [] = []
before_dot (c ∷ s) = if eqb c b'.' then [] else c ∷ before_dot s

-- `shortHostname`
unfoldable pub short_hostname : Result Text → Text
unfolding before_dot to_lower
short_hostname (ok host) = before_dot (to_lower host)
short_hostname (err e) = codes "unknown"

-- The loop of `LoadTags`
unfoldable pub parse_tags : List Text → List Text
parse_tags [] = []
parse_tags (line ∷ lines) =
    let tag = trim_space line in
    let rest = parse_tags lines in if tag == [] then rest else tag ∷ rest

unfoldable pub contains : List Text → Text → Bool
contains [] a = false
contains (x ∷ xs) a = if x == a then true else contains xs a

unfoldable pub without : List Text → Text → List Text
without [] a = []
without (x ∷ xs) a = let rest = without xs a in if x == a then rest else x ∷ rest

-- The bytes that `writeTags` writes
unfoldable pub tags_content : List Text → Text
tags_content tags =
    let content = intercalate (newline ∷ []) tags in
    if content == [] then [] else content ++ (newline ∷ [])

module _ (h : Host) (root : Text) where
  -- `LoadTags`
  unfoldable pub load_tags : h.State → List Text
  unfolding parse_tags trim_space split
  load_tags s = elim (h.read_file (join root (codes "tags")) s) [
    | ok bytes ↦ parse_tags (split newline bytes)
    | err e ↦ []
  ]

  -- `writeTags`
  unfoldable pub write_tags : List Text → Exec h.State (Unit {0})
  unfolding tags_content intercalate
  write_tags tags = h.write_file (join root (codes "tags")) (tags_content tags) 0o644

  -- `SaveTag`
  unfoldable pub save_tag : Text → Exec h.State (Unit {0})
  save_tag tag s =
      let tag' = trim_space tag in
      if tag' == []
      then (ok tt, s)
      else if contains (load_tags s) tag'
      then (ok tt, s)
      else write_tags (load_tags s ++ (tag' ∷ [])) s

  -- `RemoveTag`
  unfoldable pub remove_tag : Text → Exec h.State (Unit {0})
  remove_tag tag s = write_tags (without (load_tags s) (trim_space tag)) s

  -- `Identity`
  unfoldable pub identity : h.State → List Text
  unfolding load_tags short_hostname
  identity s =
      short_hostname h.hostname
      ∷ (codes "os:" ++ h.goos)
      ∷ (codes "arch:" ++ h.goarch)
      ∷ map (λ tag. codes "tag:" ++ tag) (load_tags s)
