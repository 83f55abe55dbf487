-- ===== src/Garden/Info.antt =====
-- garden/info.go. The format of a time, time.Format, is a parameter.
pub mod Agreement
use sgard.Base.{
  ℕ, is_not_exist, Bool, true, false, ◌&&◌, ◌||◌, not, eqb, Option, none, some, List, [], ◌∷◌, ◌++◌,
  Text, ◌==◌, has_prefix, if◌then◌else◌, Result, ok, err, and_then, not_tracking,
}
use sgard.Paths.{slash, tilde, tilde_slash, to_tilde_path, expand_tilde_path}
use sgard.Manifest.{Entry, file_type, link_type, directory_type}
use sgard.Targeting.{entry_applies}
use sgard.Store
use sgard.Host.{Host}
use sgard.Garden.{Repo, files, find_entry}
use sgard.Garden.Identity.{identity}
use sgard.Garden.Maintain.{has_blob}
use sgard.Garden.Status.{ok_state, modified, drifted, missing, skipped, compare_hash}

pub record FileInfo : Type 0 where
  pub path : Text
  pub type : Text
  pub state : Text
  pub mode : Text
  pub hash : Text
  pub plaintext_hash : Text
  pub current_hash : Text
  pub encrypted : Bool
  pub locked : Bool
  pub updated : Text
  pub disk_mod_time : Text
  pub target : Text
  pub current_target : Text
  pub only : List Text
  pub never : List Text
  pub blob_stored : Bool

module _ (h : Host) where
  -- `resolvePath`
  unfoldable pub resolve_path : Text → Result Text
  resolve_path path =
      if (path == tilde) || has_prefix path tilde_slash
      then expand_tilde_path h.home path
      else and_then h.home (λ home.
        if has_prefix path home
        then ok path
        else and_then h.cwd
            (λ cwd. ok (if has_prefix path (slash ∷ []) then path else cwd ++ (slash ∷ path))))

  module _ (format : ℕ → Text) where
    -- What `Info` fills in before it looks at the disk
    unfoldable pub from_entry : Text → Entry → h.State → FileInfo
    from_entry root e s = record {
      path = e.path;
      type = e.type;
      state = [];
      mode = e.mode;
      hash = e.hash;
      plaintext_hash = e.plaintext_hash;
      current_hash = [];
      encrypted = e.encrypted;
      locked = e.locked;
      updated = if eqb e.updated 0 then [] else format e.updated;
      disk_mod_time = [];
      target = e.target;
      current_target = [];
      only = e.only;
      never = e.never;
      blob_stored = if has_blob e then Store.exists h root e.hash s else false;
    }

    -- The switch on the entry's type
    unfoldable pub content_info : Text → Entry → FileInfo → h.State → Result FileInfo
    content_info path e fi s =
        if e.type == file_type
        then (and_then (h.read_file path s) (λ bytes. ok (record fi {
          current_hash = Store.hash_of h bytes;
          state =
              if Store.hash_of h bytes == compare_hash e
              then ok_state
              else if e.locked
              then drifted
              else modified;
        })))
        else if e.type == link_type
        then (and_then (h.readlink path s) (λ target. ok (record fi {
          current_target = target;
          state = if target == e.target then ok_state else modified;
        })))
        else if e.type == directory_type
        then ok (record fi { state = ok_state })
        else ok fi

    -- `Info`, of an entry
    unfoldable pub info_entry : Text → List Text → Entry → h.State → Result FileInfo
    info_entry root labels e s =
        let fi = from_entry root e s in
        elim (entry_applies e labels) [
          | err x ↦ err x
          | ok false ↦ ok (record fi { state = skipped })
          | ok true ↦ elim (expand_tilde_path h.home e.path) [
            | err x ↦ err x
            | ok path ↦ elim (h.lstat path s) [
              | err x ↦ if is_not_exist x then ok (record fi { state = missing }) else err x
              | ok info ↦ content_info path e (record fi { disk_mod_time = format info.mod_time }) s
            ]
          ]
        ]

    -- The entry by the resolved path, or by the path as it is given
    unfoldable pub find_given : Text → Text → List Entry → Option Entry
    find_given resolved path es = elim (find_entry (to_tilde_path h.home resolved) es) [
      | some e ↦ some e
      | none ↦ find_entry path es
    ]

    -- `Info`
    unfoldable pub info : Text → Repo h → Result FileInfo
    info path s = elim (resolve_path path) [
      | err x ↦ err x
      | ok resolved ↦ elim (find_given resolved path (files s)) [
        | none ↦ err (not_tracking path)
        | some e ↦ info_entry s.garden.root (identity h s.garden.root s.disk) e s.disk
      ]
    ]
