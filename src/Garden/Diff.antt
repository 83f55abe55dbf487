-- ===== src/Garden/Diff.antt =====
-- garden/diff.go
pub mod Rebuilding
use sgard.Base.{
  ℕ, Bool, true, false, eqb, Option, none, some, List, [], ◌∷◌, ◌++◌, Text, codes, ◌==◌,
  if◌then◌else◌, Result, ok, err, not_tracking, cannot_diff,
}
use sgard.Paths.{abs, to_tilde_path}
use sgard.Manifest.{Entry, file_type}
use sgard.Host.{Host}
use sgard.Garden.{Repo, files, find_entry}
use sgard.Garden.Restore.{restored_bytes}

abbrev pub newline : ℕ
newline = 10

abbrev pub put_first : ℕ → List Text → List Text
put_first c [] = (c ∷ []) ∷ []
put_first c (line ∷ lines) = (c ∷ line) ∷ lines

-- strings.SplitAfter(s, "\n")
unfoldable pub split_after : Text → List Text
split_after [] = [] ∷ []
split_after (c ∷ s) =
    let rest = split_after s in if eqb c newline then (c ∷ []) ∷ rest else put_first c rest

-- `splitLines`
unfoldable pub split_lines : Text → List Text
split_lines [] = []
split_lines (c ∷ s) = split_after (c ∷ s)

-- The three loops of `simpleDiff`
unfoldable pub diff_lines : List Text → List Text → Text
diff_lines [] [] = []
diff_lines (o ∷ os) [] = (b'-' ∷ o) ++ diff_lines os []
diff_lines [] (n ∷ ns) = (b'+' ∷ n) ++ diff_lines [] ns
diff_lines (o ∷ os) (n ∷ ns) =
    let rest = diff_lines os ns in
    if o == n then (b' ' ∷ o) ++ rest else (b'-' ∷ o) ++ ((b'+' ∷ n) ++ rest)

-- `simpleDiff`
unfoldable pub simple_diff : Text → Text → List Text → List Text → Text
simple_diff old_name new_name old new =
    codes "--- "
    ++ (old_name ++ (newline ∷ (codes "+++ " ++ (new_name ++ (newline ∷ diff_lines old new)))))

-- `Diff`, of the bytes that are stored and those that are there
unfoldable pub diff_bytes : Text → Text → Text → Text
diff_bytes tilded stored current =
    if stored == current
    then []
    else simple_diff (tilded ++ codes " (stored)") (tilded ++ codes " (current)")
        (split_lines stored) (split_lines current)

module _ (h : Host) where
  -- `Diff`, of an entry
  unfoldable pub diff_entry : Text → Text → Entry → Repo h → Result Text
  diff_entry path tilded e s =
      if e.type == file_type
      then (elim (restored_bytes h s.garden e s.disk) [
        | err x ↦ err x
        | ok stored ↦ elim (h.read_file path s.disk) [
          | err x ↦ err x
          | ok current ↦ ok (diff_bytes tilded stored current)
        ]
      ])
      else err (cannot_diff e.type)

  -- `Diff`
  unfoldable pub diff : Text → Repo h → Result Text
  diff path s = elim (abs h.cwd path) [
    | err x ↦ err x
    | ok p ↦
        let tilded = to_tilde_path h.home p in
        elim (find_entry tilded (files s)) [
          | none ↦ err (not_tracking tilded)
          | some e ↦ diff_entry p tilded e s
        ]
  ]
