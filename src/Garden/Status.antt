-- ===== src/Garden/Status.antt =====
-- garden/garden.go: `Status`
use sgard.Base.{
  is_not_exist, true, false, ◌&&◌, not, Option, none, some, List, [], ◌∷◌, Text, codes, ◌==◌,
  if◌then◌else◌, Result, ok, err, and_then,
}
use sgard.Paths.{expand_tilde_path}
use sgard.Manifest.{Entry, file_type, link_type, directory_type}
use sgard.Targeting.{entry_applies}
use sgard.Store
use sgard.Host.{Host}
use sgard.Garden.{Repo, files}
use sgard.Garden.Identity.{identity}

-- `FileStatus`
pub record FileStatus : Type 0 where
  pub path : Text
  pub state : Text

abbrev pub ok_state : Text
ok_state = codes "ok"

abbrev pub modified : Text
modified = codes "modified"

abbrev pub drifted : Text
drifted = codes "drifted"

abbrev pub missing : Text
missing = codes "missing"

abbrev pub skipped : Text
skipped = codes "skipped"

-- The hash that a file on disk is compared with; for an encrypted entry the plaintext's
unfoldable pub compare_hash : Entry → Text
compare_hash e = if e.encrypted && not (e.plaintext_hash == []) then e.plaintext_hash else e.hash

module _ (h : Host) where
  -- The switch on the entry's type; an unknown type gives no line
  unfoldable pub content_state : Text → Entry → h.State → Result (Option Text)
  unfolding compare_hash
  content_state path e s =
      if e.type == file_type
      then (and_then (h.read_file path s) (λ bytes. ok (
          some (
            if Store.hash_of h bytes == compare_hash e
            then ok_state
            else if e.locked
            then drifted
            else modified))))
      else if e.type == link_type
      then (and_then (h.readlink path s)
          (λ target. ok (some (if target == e.target then ok_state else modified))))
      else if e.type == directory_type
      then ok (some ok_state)
      else ok none

  -- The body of the loop of `Status`
  unfoldable pub entry_state : List Text → Entry → h.State → Result (Option Text)
  entry_state labels e s = elim (entry_applies e labels) [
    | err x ↦ err x
    | ok false ↦ ok (some skipped)
    | ok true ↦ elim (expand_tilde_path h.home e.path) [
      | err x ↦ err x
      | ok path ↦ elim (h.lstat path s) [
        | err x ↦ if is_not_exist x then ok (some missing) else err x
        | ok info ↦ content_state path e s
      ]
    ]
  ]

  abbrev pub report : Entry → Option Text → List FileStatus → List FileStatus
  report e none rest = rest
  report e (some state) rest = record { path = e.path; state = state } ∷ rest

  unfoldable pub status_loop : List Text → List Entry → h.State → Result (List FileStatus)
  status_loop labels [] s = ok []
  status_loop labels (e ∷ es) s =
      and_then (entry_state labels e s)
        (λ state. and_then (status_loop labels es s) (λ rest. ok (report e state rest)))

  -- `Status`
  unfoldable pub status : Repo h → Result (List FileStatus)
  unfolding status_loop
  status s = status_loop (identity h s.garden.root s.disk) (files s) s.disk
