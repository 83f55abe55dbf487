-- ===== src/Garden.antt =====
-- garden/garden.go: the state of a Garden beside the disk that it works on, and the helpers that its
-- methods share. A method is an action on both; what it changed before an error stays changed. The
-- clock is an argument `now`, the reading of `g.clock.Now().UTC()` at the start of the method.
pub mod Crypt
pub mod Identity
pub mod Add
pub mod Edit
pub mod Checkpoint
pub mod Status
pub mod Restore
pub mod Maintain
pub mod Mirror
pub mod Slots
pub mod Unlock
pub mod Rotate
pub mod Diff
pub mod Info
pub mod Unique
pub mod History
use sgard.Base.{
  ℕ, Bool, true, false, Option, none, some, List, [], ◌∷◌, ◌++◌, Text, Bytes, ◌==◌, if◌then◌else◌,
  Result, ok, err, Exec, codes, ◌>>=◌, ◌>>◌, repository_exists,
}
use sgard.Paths.{to_tilde_path, join, abs}
use sgard.Manifest.{Manifest, Entry, new_with_time}
use sgard.Manifest.Disk.{save, load}
use sgard.Store
use sgard.Host.{Host}

pub record Garden : Type 0 where
  pub manifest : Manifest
  pub root : Text
  pub manifest_path : Text
  pub dek : Option Bytes

pub record Repo (h : Host) : Type 0 where
  pub garden : Garden
  pub disk : h.State

-- What `Init` and `Open` build
abbrev pub new_garden : Manifest → Text → Garden
new_garden m root = record {
  manifest = m;
  root = root;
  manifest_path = join root (codes "manifest.yaml");
  dek = none;
}

-- The file that `Init` writes: "blobs/\ntags\n"
abbrev pub gitignore : Bytes
gitignore = codes "blobs/" ++ (10 ∷ (codes "tags" ++ (10 ∷ [])))

-- `findEntry`
unfoldable pub find_entry : Text → List Entry → Option Entry
find_entry tilde_path [] = none
find_entry tilde_path (e ∷ es) = if e.path == tilde_path then some e else find_entry tilde_path es

-- A change through the pointer that `findEntry` returns
unfoldable pub update_entry : Text → (Entry → Entry) → List Entry → List Entry
update_entry tilde_path f [] = []
update_entry tilde_path f (e ∷ es) =
    if e.path == tilde_path then f e ∷ es else e ∷ update_entry tilde_path f es

unfoldable pub is_tracked : Text → List Entry → Bool
unfolding find_entry
is_tracked tilde_path files = elim (find_entry tilde_path files) [ none ↦ false | some _ ↦ true ]

-- `Open`: the manifest as it is on disk, and the blobs directory made if it is not there
module _ (h : Host) where
  unfoldable pub open_repo : Text → h.State → Result (Repo h) × h.State
  open_repo root s = elim (abs h.cwd root) [
    | err x ↦ (err x, s)
    | ok root' ↦
        let manifest_path = join root' (codes "manifest.yaml") in
        elim (load h manifest_path s) [
          | err x ↦ (err x, s)
          | ok m ↦
              let (r, s') = Store.new h root' s in
              elim r [
                | err x ↦ (err x, s')
                | ok _ ↦ (ok (record { garden = new_garden m root'; disk = s' }), s')
              ]
        ]
  ]

  -- `Init`, as far as the directory, the store, the file .gitignore and the first manifest
  unfoldable pub init_repo : Text → ℕ → h.State → Result (Repo h) × h.State
  init_repo root now s = elim (abs h.cwd root) [
    | err x ↦ (err x, s)
    | ok root' ↦ elim (h.stat (join root' (codes "manifest.yaml")) s) [
      | ok _ ↦ (err (repository_exists root'), s)
      | err _ ↦
          (do
            h.mkdir_all root' 0o755
            Store.new h root'
            h.write_file (join root' (codes ".gitignore")) gitignore 0o644
            let m = new_with_time now
            save h m (join root' (codes "manifest.yaml"))
            (λ s'. (ok (record { garden = new_garden m root'; disk = s' }), s')))
            s
    ]
  ]

module _ {h : Host} where
  abbrev pub files : Repo h → List Entry
  files s = s.garden.manifest.files

  abbrev pub with_manifest : Manifest → Repo h → Repo h
  with_manifest m s = record s { garden = record s.garden { manifest = m } }

  abbrev pub with_files : List Entry → Repo h → Repo h
  with_files es s = with_manifest (record s.garden.manifest { files = es }) s

module _ (h : Host) where
  -- `g.manifest.Save(g.manifestPath)`
  unfoldable pub save_manifest : Exec (Repo h) (Unit {0})
  save_manifest s =
      let (r, d) = save h s.garden.manifest s.garden.manifest_path s.disk in
      (r, record s { disk = d })

  -- `ReplaceManifest`
  unfoldable pub replace_manifest : Manifest → Exec (Repo h) (Unit {0})
  replace_manifest m s =
      let (r, d) = save h m s.garden.manifest_path s.disk in
      elim r [
        | ok _ ↦ (ok tt, with_manifest m (record s { disk = d }))
        | err e ↦ (err e, record s { disk = d })
      ]
