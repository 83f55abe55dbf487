-- ===== src/Garden/Add.antt =====
-- garden/garden.go: `addEntry` and `Add`
use sgard.Base.{
  ℕ, Bool, true, false, ◌&&◌, Option, none, some, List, [], ◌∷◌, ◌++◌, Text, Bytes, if◌then◌else◌,
  Result, ok, err, Exec, pure, ◌>>=◌, ◌>>◌, for_each, already_tracking, dek_locked,
}
use sgard.Paths.{abs, to_tilde_path}
use sgard.Manifest.{Entry, file_type, link_type, directory_type, is_excluded}
use sgard.Mode.{format_mode}
use sgard.Store
use sgard.Host.{Host, Info}
use sgard.Host.Walk.{Visit, go_on, skip_dir, walk_tree}
use sgard.Garden.{Garden, Repo, files, with_manifest, with_files, is_tracked, save_manifest}
use sgard.Garden.Crypt.{encrypt_blob}

-- `AddOptions`
pub record AddOptions : Type 0 where
  pub encrypt : Bool
  pub lock : Bool
  pub dir_only : Bool
  pub only : List Text
  pub never : List Text

-- The zero value of `AddOptions`
abbrev pub no_options : AddOptions
no_options = record { encrypt = false; lock = false; dir_only = false; only = []; never = [] }

-- `g.dek == nil`
abbrev pub is_locked : Option Bytes → Bool
is_locked none = true
is_locked (some dek) = false

-- The entry that `addEntry` and the directory case of `Add` begin with
unfoldable pub new_entry : Text → Text → Info → ℕ → AddOptions → Entry
new_entry tilded type info now o = record {
  path = tilded;
  hash = [];
  plaintext_hash = [];
  encrypted = false;
  locked = o.lock;
  type = type;
  mode = format_mode info.perm;
  target = [];
  updated = now;
  only = o.only;
  never = o.never;
}

module _ (h : Host) where
  -- The default case of `addEntry`: the file's bytes to the store, encrypted if that is asked
  unfoldable pub store_file : Option Bytes → Text → Text → Bool → Entry → Exec h.State Entry
  store_file dek root path encrypt e s = elim (h.read_file path s) [
    | err x ↦ (err x, s)
    | ok bytes ↦ elim encrypt [
      | false ↦
          let (r, s') = Store.write h root bytes s in
          elim r [ ok hash ↦ (ok (record e { hash = hash }), s') | err x ↦ (err x, s') ]
      | true ↦
          let (r, s') = encrypt_blob h dek bytes s in
          elim r [
            | err x ↦ (err x, s')
            | ok ct ↦
                let (r', s'') = Store.write h root ct s' in
                elim r' [
                  | err x ↦ (err x, s'')
                  | ok hash ↦ (
                    ok (record e {
                      hash = hash;
                      plaintext_hash = Store.hash_of h bytes;
                      encrypted = true;
                    }),
                    s'',
                  )
                ]
          ]
    ]
  ]

  -- The switch of `addEntry` on the kind of file
  unfoldable pub make_entry : Garden → Text → Info → ℕ → AddOptions → Exec h.State Entry
  unfolding new_entry
  make_entry g path info now o s =
      let tilded = to_tilde_path h.home path in
      if info.is_symlink
      then (elim (h.readlink path s) [
        | err x ↦ (err x, s)
        | ok target ↦ (ok (record (new_entry tilded link_type info now o) { target = target }), s)
      ])
      else store_file g.dek g.root path o.encrypt (new_entry tilded file_type info now o) s

  -- The append of `addEntry`, of an entry that was made
  unfoldable pub append_made : Repo h → Result Entry × h.State → Result (Unit {0}) × Repo h
  append_made s (ok e, d) = (ok tt, with_files (files s ++ (e ∷ [])) (record s { disk = d }))
  append_made s (err x, d) = (err x, record s { disk = d })

  -- `addEntry`
  unfoldable pub add_entry : Text → Info → ℕ → Bool → AddOptions → Exec (Repo h) (Unit {0})
  add_entry path info now skip_dup o s =
      let tilded = to_tilde_path h.home path in
      if is_tracked tilded (files s)
      then (if skip_dup then (ok tt, s) else (err (already_tracking tilded), s))
      else append_made s (make_entry s.garden path info now o s.disk)

  -- The callback of the directory walks of `Add` and `MirrorUp`
  unfoldable pub add_visit : ℕ → AddOptions → Text → Bool → Exec (Repo h) Visit
  add_visit now o path is_dir s =
      if is_excluded s.garden.manifest (to_tilde_path h.home path)
      then (ok (if is_dir then skip_dir else go_on), s)
      else if is_dir
      then (ok go_on, s)
      else elim (h.lstat path s.disk) [
        | err x ↦ (err x, s)
        | ok info ↦ (add_entry path info now true o >>= λ _. pure go_on) s
      ]

  -- filepath.WalkDir with that callback
  unfoldable pub add_walk : ℕ → AddOptions → Text → Exec (Repo h) (Unit {0})
  add_walk now o path s = elim (h.walk path s.disk) [
    | err x ↦ (err x, s)
    | ok tree ↦ (walk_tree (add_visit now o) path tree >>= λ _. pure tt) s
  ]

  -- A directory under DirOnly
  unfoldable pub add_directory : Text → Info → ℕ → AddOptions → Exec (Repo h) (Unit {0})
  unfolding new_entry
  add_directory path info now o s =
      let tilded = to_tilde_path h.home path in
      if is_tracked tilded (files s)
      then (ok tt, s)
      else (ok tt, with_files (files s ++ (new_entry tilded directory_type info now o ∷ [])) s)

  -- The body of the loop of `Add`
  unfoldable pub add_path : ℕ → AddOptions → Text → Exec (Repo h) (Unit {0})
  add_path now o p s = elim (abs h.cwd p) [
    | err x ↦ (err x, s)
    | ok path ↦ elim (h.lstat path s.disk) [
      | err x ↦ (err x, s)
      | ok info ↦
          if info.is_dir
          then (if o.dir_only then add_directory path info now o s else add_walk now o path s)
          else add_entry path info now true o s
    ]
  ]

  -- `g.manifest.Updated = now` and the save at the end of a method
  unfoldable pub finish : ℕ → Exec (Repo h) (Unit {0})
  finish now s = save_manifest h (with_manifest (record s.garden.manifest { updated = now }) s)

  -- `Add`
  unfoldable pub add : List Text → AddOptions → ℕ → Exec (Repo h) (Unit {0})
  add paths o now s = elim (o.encrypt && is_locked s.garden.dek) [
    | true ↦ (err dek_locked, s)
    | false ↦ (for_each paths (add_path now o) >> finish now) s
  ]
