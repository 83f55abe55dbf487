-- ===== src/Tests/Pure.antt =====
-- Paths, modes, hashes, labels and exclusions.
use sgard.Base.{
  ℕ, ◌≡◌, ◌≢◌, ◌↔◌, ◌⊎◌, ◌<◌, ◌^◌, refl, true, false, List, [], ◌∷◌, ◌++◌, Text, codes, All, Any,
  arith, Result, ok, err, only_and_never,
}
use sgard.Paths.{to_tilde_path, expand_tilde_path, clean}
use sgard.Paths.RoundTrip.{expand_tilde_path-to_tilde_path}
use sgard.Manifest.{Manifest, Entry, is_excluded}
use sgard.Manifest.Excluded.{is_excluded_iff, IsUnder}
use sgard.Mode.{format_mode, parse_mode, parse_mode-format_mode, parse_mode-lt}
use sgard.Targeting.{entry_applies}
use sgard.Targeting.Laws.{IsActive, entry_applies_iff, entry_applies-err_iff}
use sgard.Tests.Data.{homed, entry, manifest_of}

clean_run : clean (codes "/a/./b//../c/") ≡ codes "/a/c"
unfolding clean
clean_run = refl

parse_mode-format_mode_example : parse_mode (format_mode 0o644) ≡ ok 0o644
parse_mode-format_mode_example = parse_mode-format_mode 0o644 (omega arith)

parsed : parse_mode (codes "0755") ≡ ok 0o755
unfolding parse_mode
parsed = refl

parse_mode-lt_example : 0o755 < 2 ^ 32
parse_mode-lt_example = parse_mode-lt (codes "0755") 0o755 parsed

expand_tilde_path-to_tilde_path_example :
    expand_tilde_path (ok (codes "/h")) (to_tilde_path (ok (codes "/h")) (codes "/h"))
    ≡ ok (codes "/h")
expand_tilde_path-to_tilde_path_example =
    expand_tilde_path-to_tilde_path (codes "/h") (codes "h") [] (ground arith) homed

abbrev targeted : Entry
targeted = record (entry (codes "~/x") []) { only = codes "work" ∷ [] }

entry_applies_iff_example :
    (entry_applies targeted (codes "Work" ∷ []) ≡ ok true) ↔ IsActive targeted (codes "Work" ∷ [])
entry_applies_iff_example = entry_applies_iff targeted (codes "Work" ∷ [])

abbrev contradictory : Entry
contradictory = record targeted { never = codes "home" ∷ [] }

entry_applies-err_iff_example :
    (entry_applies contradictory [] ≡ err (only_and_never (codes "~/x"))) ↔ (
      (codes "work" ∷ [] ≢ [])
      × (codes "home" ∷ [] ≢ [])
      × (only_and_never (codes "~/x") ≡ only_and_never (codes "~/x")))
entry_applies-err_iff_example =
    entry_applies-err_iff contradictory [] (only_and_never (codes "~/x"))

case_run : entry_applies targeted (codes "WORK" ∷ []) ≡ ok true
unfolding entry_applies sgard.Targeting.any_matches sgard.Targeting.matches_label sgard.Base.◌==◌
    sgard.Base.to_lower
case_run = refl

abbrev excluding : Manifest
excluding = record (manifest_of []) { exclude = codes "~/.cache" ∷ [] }

is_excluded_iff_example :
    (is_excluded excluding (codes "~/.cache/a") ≡ true)
    ↔ Any
        (λ ex. (codes "~/.cache/a" ≡ ex) ⊎ IsUnder ex (codes "~/.cache/a"))
        (codes "~/.cache" ∷ [])
is_excluded_iff_example = is_excluded_iff excluding (codes "~/.cache/a")

is_excluded_run : is_excluded excluding (codes "~/.cached") ≡ false
unfolding is_excluded sgard.Base.◌==◌ sgard.Base.has_prefix sgard.Base.has_suffix
is_excluded_run = refl
