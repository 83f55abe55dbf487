-- ===== src/Garden/Restore.antt =====
-- garden/garden.go: `Restore` and its helpers. `confirm` is the prompt, a function of the path.
pub mod RoundTrip
use sgard.Base.{
  ℕ, ◌-◌, ◌%◌, Bool, true, false, ◌&&◌, not, Option, none, some, List, [], ◌∷◌, Text, Bytes, ◌==◌,
  ltb, if◌then◌else◌, Result, ok, err, Exec, for_each, no_matching_entries,
}
use sgard.Paths.{abs, to_tilde_path, expand_tilde_path, dir}
use sgard.Manifest.{Entry, file_type, link_type, directory_type}
use sgard.Mode.{parse_mode}
use sgard.Targeting.{entry_applies, is_nonempty}
use sgard.Store
use sgard.Host.{Host}
use sgard.Garden.{Garden, Repo, files}
use sgard.Garden.Crypt.{decrypt_blob}
use sgard.Garden.Identity.{identity, contains}
use sgard.Garden.Status.{compare_hash}

-- A prompt, nil where there is none
abbrev pub Confirm : Type 0
Confirm = Option (Text → Bool)

-- `confirm == nil || !confirm(path)`, negated
unfoldable pub confirmed : Confirm → Text → Bool
confirmed none path = false
confirmed (some confirm) path = confirm path

abbrev pub second : ℕ
second = 1_000_000_000

-- `t.Truncate(time.Second)`
abbrev pub truncate : ℕ → ℕ
truncate t = t - t % second

unfoldable pub filter_wanted : List Text → List Entry → List Entry
filter_wanted wanted [] = []
filter_wanted wanted (e ∷ es) =
    let rest = filter_wanted wanted es in if contains wanted e.path then e ∷ rest else rest

module _ (h : Host) where
  -- The bytes that `restoreFile` writes: the blob, decrypted where the entry is encrypted
  unfoldable pub restored_bytes : Garden → Entry → h.State → Result Bytes
  restored_bytes g e s = elim (Store.read h g.root e.hash s) [
    | err x ↦ err x
    | ok bytes ↦ if e.encrypted then decrypt_blob h g.dek bytes else ok bytes
  ]

  -- `restoreFile`
  unfoldable pub restore_file : Garden → Text → Entry → Exec h.State (Unit {0})
  restore_file g path e s = elim (restored_bytes g e s) [
    | err x ↦ (err x, s)
    | ok bytes ↦ elim (parse_mode e.mode) [
      | err x ↦ (err x, s)
      | ok mode ↦ h.write_file path bytes mode s
    ]
  ]

  -- `restoreLink`
  unfoldable pub restore_link : Text → Entry → Exec h.State (Unit {0})
  restore_link path e s = let (_, s') = h.remove path s in h.symlink e.target path s'

  -- The directory case of `Restore`
  unfoldable pub restore_directory : Text → Entry → Exec h.State (Unit {0})
  restore_directory path e s = elim (parse_mode e.mode) [
    | err x ↦ (err x, s)
    | ok mode ↦ h.mkdir_all path mode s
  ]

  -- Does `HashFile` succeed, with the hash of the entry?
  unfoldable pub already_matches : Text → Entry → h.State → Bool
  already_matches path e s = elim (h.read_file path s) [
    | err _ ↦ false
    | ok bytes ↦ Store.hash_of h bytes == compare_hash e
  ]

  -- Is there a file that is not older than the entry, and is it not to be replaced?
  unfoldable pub declined : Confirm → Text → Entry → h.State → Bool
  declined confirm path e s = elim (h.lstat path s) [
    | err _ ↦ false
    | ok info ↦
        if ltb (truncate info.mod_time) (truncate e.updated)
        then false
        else not (confirmed confirm e.path)
  ]

  -- The two `continue`s in front of the write
  unfoldable pub is_left : Bool → Confirm → Text → Entry → h.State → Bool
  is_left force confirm path e s =
      if e.locked && e.type == file_type
      then already_matches path e s
      else if force
      then false
      else declined confirm path e s

  -- The parent directory, and the switch on the entry's type
  unfoldable pub restore_content : Garden → Text → Entry → Exec h.State (Unit {0})
  restore_content g path e s =
      let (r, s') = h.mkdir_all (dir path) 0o755 s in
      elim r [
        | err x ↦ (err x, s')
        | ok _ ↦
            if e.type == file_type
            then restore_file g path e s'
            else if e.type == link_type
            then restore_link path e s'
            else if e.type == directory_type
            then restore_directory path e s'
            else (ok tt, s')
      ]

  -- The body of the loop of `Restore`
  unfoldable pub restore_entry :
      Garden → List Text → Bool → Confirm → Entry → Exec h.State (Unit {0})
  restore_entry g labels force confirm e s = elim (entry_applies e labels) [
    | err x ↦ (err x, s)
    | ok false ↦ (ok tt, s)
    | ok true ↦ elim (expand_tilde_path h.home e.path) [
      | err x ↦ (err x, s)
      | ok path ↦ if is_left force confirm path e s then (ok tt, s) else restore_content g path e s
    ]
  ]

  -- The keys of the map `wanted`
  unfoldable pub wanted_path : Text → Text
  wanted_path p = elim (abs h.cwd p) [ err _ ↦ p | ok path ↦ to_tilde_path h.home path ]

  unfoldable pub wanted_paths : List Text → List Text
  wanted_paths [] = []
  wanted_paths (p ∷ ps) = wanted_path p ∷ wanted_paths ps

  -- `filterEntries`
  unfoldable pub filter_entries : List Text → List Entry → List Entry
  filter_entries paths es = filter_wanted (wanted_paths paths) es

  -- `Restore`. Of the repository only the disk can change.
  unfoldable pub restore : List Text → Bool → Confirm → Exec (Repo h) (Unit {0})
  restore paths force confirm s =
      let entries = if is_nonempty paths then filter_entries paths (files s) else files s in
      if is_nonempty paths && not (is_nonempty entries)
      then (err no_matching_entries, s)
      else let labels = identity h s.garden.root s.disk in
        let (r, d) = for_each entries (restore_entry s.garden labels force confirm) s.disk in
        (r, record s { disk = d })
