-- ===== src/Garden/Mirror.antt =====
-- garden/mirror.go: `MirrorUp` and `MirrorDown`
use mathlib.Core.List.{reverse}
use sgard.Base.{
  ℕ, Bool, true, false, ◌||◌, List, [], ◌∷◌, ◌++◌, Text, ◌==◌, has_prefix, if◌then◌else◌, Result,
  ok, err, Exec, ◌>>◌, for_each, update_each, length, drop,
}
use sgard.Paths.{abs, to_tilde_path, expand_tilde_path, dir}
use sgard.Manifest.{Manifest, Entry, file_type, link_type, with_slash, is_excluded}
use sgard.Host.{Host}
use sgard.Host.Walk.{Visit, go_on, skip_dir, walk_tree}
use sgard.Garden.{Garden, Repo, files, with_files}
use sgard.Garden.Identity.{contains}
use sgard.Garden.Add.{no_options, add_walk, finish}
use sgard.Garden.Checkpoint.{rehash}
use sgard.Garden.Restore.{Confirm, confirmed, restore_file, restore_link}

module _ (h : Host) where
  -- Step 2 of `MirrorUp`: the entries under the prefix whose path is no longer there go. The slice
  -- `kept` shares the array of `g.manifest.Files`, so an error leaves the kept entries in front of
  -- what they have not yet overwritten: `kept ++ drop (length kept) all`.
  unfoldable pub drop_missing :
      Text → h.State → List Entry → List Entry → List Entry → Result (Unit {0}) × List Entry
  drop_missing prefix s all kept [] = (ok tt, kept)
  drop_missing prefix s all kept (e ∷ es) = elim (has_prefix e.path prefix) [
    | false ↦ drop_missing prefix s all (kept ++ (e ∷ [])) es
    | true ↦ elim (expand_tilde_path h.home e.path) [
      | err x ↦ (err x, kept ++ drop (length kept) all)
      | ok path ↦ elim (h.lstat path s) [
        | err _ ↦ drop_missing prefix s all kept es
        | ok _ ↦ drop_missing prefix s all (kept ++ (e ∷ [])) es
      ]
    ]
  ]

  -- Step 3 of `MirrorUp`: the body of the loop. Encrypted entries are not told apart.
  unfoldable pub rehash_under :
      Garden → ℕ → Text → Entry → h.State → Result (Unit {0}) × Entry × h.State
  rehash_under g now prefix e s =
      if has_prefix e.path prefix
      then if e.type == file_type
        then (elim (expand_tilde_path h.home e.path) [
          | err x ↦ (err x, e, s)
          | ok path ↦ elim (h.read_file path s) [
            | err x ↦ (err x, e, s)
            | ok bytes ↦ rehash h g now bytes e s
          ]
        ])
        else (ok tt, e, s)
      else (ok tt, e, s)

  unfoldable pub mirror_rehash : ℕ → Text → Exec (Repo h) (Unit {0})
  mirror_rehash now prefix s =
      let (r, es, d) = update_each (rehash_under s.garden now prefix) (files s) s.disk in
      (r, with_files es (record s { disk = d }))

  unfoldable pub mirror_up_prefix : ℕ → Text → Exec (Repo h) (Unit {0})
  mirror_up_prefix now prefix s =
      let (r, es) = drop_missing prefix s.disk (files s) [] (files s) in
      elim r [
        | err x ↦ (err x, with_files es s)
        | ok _ ↦ mirror_rehash now prefix (with_files es s)
      ]

  -- The three steps for one directory
  unfoldable pub mirror_up_at : ℕ → Text → Exec (Repo h) (Unit {0})
  mirror_up_at now path =
      add_walk h now no_options path
      >> mirror_up_prefix now (with_slash (to_tilde_path h.home path))

  -- The body of the loop of `MirrorUp`
  unfoldable pub mirror_up_path : ℕ → Text → Exec (Repo h) (Unit {0})
  mirror_up_path now p s = elim (abs h.cwd p) [
    | err x ↦ (err x, s)
    | ok path ↦ mirror_up_at now path s
  ]

  -- `MirrorUp`
  unfoldable pub mirror_up : List Text → ℕ → Exec (Repo h) (Unit {0})
  mirror_up paths now = for_each paths (mirror_up_path now) >> finish h now

  -- The parent directory and the switch on the entry's type; directories are not restored here
  unfoldable pub mirror_write : Garden → Text → Entry → Exec h.State (Unit {0})
  mirror_write g path e s =
      let (r, s') = h.mkdir_all (dir path) 0o755 s in
      elim r [
        | err x ↦ (err x, s')
        | ok _ ↦
            if e.type == file_type
            then restore_file h g path e s'
            else if e.type == link_type
            then restore_link h path e s'
            else (ok tt, s')
      ]

  -- Step 1 of `MirrorDown`: restore the entries under the prefix, and collect their paths
  unfoldable pub mirror_restore :
      Garden → Text → List Entry → h.State → Result (List Text) × h.State
  mirror_restore g prefix [] s = (ok [], s)
  mirror_restore g prefix (e ∷ es) s = elim (has_prefix e.path prefix) [
    | false ↦ mirror_restore g prefix es s
    | true ↦ elim (expand_tilde_path h.home e.path) [
      | err x ↦ (err x, s)
      | ok path ↦
          let (r, s') = mirror_write g path e s in
          elim r [
            | err x ↦ (err x, s')
            | ok _ ↦
                let (r', s'') = mirror_restore g prefix es s' in
                elim r' [ err x ↦ (err x, s'') | ok tracked ↦ (ok (path ∷ tracked), s'') ]
          ]
    ]
  ]

  -- The callback of step 2 of `MirrorDown`, on the disk and the list `emptyDirs`
  unfoldable pub clean_visit :
      Manifest → List Text → Bool → Confirm → Text → Text → Bool → Exec (h.State × List Text) Visit
  clean_visit m tracked force confirm top path true (s, dirs) =
      if is_excluded m (to_tilde_path h.home path)
      then (ok skip_dir, (s, dirs))
      else if path == top
      then (ok go_on, (s, dirs))
      else (ok go_on, (s, dirs ++ (path ∷ [])))
  clean_visit m tracked force confirm top path false (s, dirs) =
      if contains tracked path
      then (ok go_on, (s, dirs))
      else if is_excluded m (to_tilde_path h.home path)
      then (ok go_on, (s, dirs))
      else if force || confirmed confirm path
      then (ok go_on, ((h.remove path s).1, dirs))
      else (ok go_on, (s, dirs))

  -- Step 3 of `MirrorDown`: os.Remove of each directory, which fails where it is not empty
  unfoldable pub remove_dirs : List Text → h.State → h.State
  remove_dirs [] s = s
  remove_dirs (d ∷ ds) s = remove_dirs ds (h.remove d s).1

  -- Steps 2 and 3
  unfoldable pub clean_up : Manifest → List Text → Bool → Confirm → Text → Exec h.State (Unit {0})
  unfolding remove_dirs
  clean_up m tracked force confirm top s = elim (h.walk top s) [
    | err x ↦ (err x, s)
    | ok tree ↦
        let (r, sd) = walk_tree (clean_visit m tracked force confirm top) top tree (s, []) in
        elim r [ err x ↦ (err x, sd.0) | ok _ ↦ (ok tt, remove_dirs (reverse sd.1) sd.0) ]
  ]

  -- The body of the loop of `MirrorDown`
  unfoldable pub mirror_down_path : Garden → Bool → Confirm → Text → Exec h.State (Unit {0})
  mirror_down_path g force confirm p s = elim (abs h.cwd p) [
    | err x ↦ (err x, s)
    | ok path ↦
        let prefix = with_slash (to_tilde_path h.home path) in
        let (r, s') = mirror_restore g prefix g.manifest.files s in
        elim r [
          | err x ↦ (err x, s')
          | ok tracked ↦ clean_up g.manifest tracked force confirm path s'
        ]
  ]

  -- `MirrorDown`. Of the repository only the disk can change.
  unfoldable pub mirror_down : List Text → Bool → Confirm → Exec (Repo h) (Unit {0})
  mirror_down paths force confirm s =
      let (r, d) = for_each paths (mirror_down_path s.garden force confirm) s.disk in
      (r, record s { disk = d })
