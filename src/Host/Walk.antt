-- ===== src/Host/Walk.antt =====
-- filepath.WalkDir over a tree, read when the walk begins, of names in the order of os.ReadDir.
-- The program's callbacks return at once an error that they are handed, so the walk ends with it.
use sgard.Base.{Bool, true, false, Text, Error, Exec, pure, fail, ◌>>=◌, bind_keeps}
use sgard.Paths.{join}

mutual
  pub data Tree : Type 0 where
    -- anything that is no directory
    leaf : Tree
    folder : Children → Tree

  pub data Children : Type 0 where
    end : Children
    unreadable : Error → Children
    child : Text → Tree → Children → Children

-- What a callback returns beside an error: nil, or filepath.SkipDir.
pub data Visit : Type 0 where
  go_on skip_dir : Visit

-- filepath.SkipDir ends a folder, and nil goes on with the rest of it.
abbrev pub proceed : {S : Type 0} → Exec S Visit → Visit → Exec S Visit
proceed rest go_on = rest
proceed rest skip_dir = pure go_on

module _ {S : Type 0} (fn : Text → Bool → Exec S Visit) where
  unfoldable mutual
    pub walk_tree : Text → Tree → Exec S Visit
    walk_tree path leaf = fn path false
    walk_tree path (folder cs) = fn path true >>= proceed (walk_children path cs)

    pub walk_children : Text → Children → Exec S Visit
    walk_children path end = pure go_on
    walk_children path (unreadable e) = fail e
    walk_children path (child name t cs) =
        walk_tree (join path name) t
        >>= elim [ skip_dir ↦ pure go_on | go_on ↦ walk_children path cs ]

module _ {S : Type 0} (P : S → Type 0) (fn : Text → Bool → Exec S Visit)
    (keep : (path : Text) (is_dir : Bool) (s : S) → P s → P (fn path is_dir s).1) where
  proceed_keeps :
      (rest : Exec S Visit)
      → ((s : S) → P s → P (rest s).1)
      → (v : Visit) (s : S) → P s
      → P (proceed rest v s).1
  proceed_keeps rest k go_on s h = k s h
  proceed_keeps rest k skip_dir s h = h

  mutual
    unfolding walk_tree

    -- What the callback keeps, whether it returns or fails, the walk keeps.
    pub walk_keeps : (t : Tree) (path : Text) (s : S) → P s → P (walk_tree fn path t s).1
    walk_keeps leaf path s h = keep path false s h
    walk_keeps (folder cs) path s h =
        bind_keeps P (fn path true) _ s (keep path true s h)
          (proceed_keeps _ (walk_children_keeps cs path))

    walk_children_keeps :
        (cs : Children) (path : Text) (s : S) → P s → P (walk_children fn path cs s).1
    walk_children_keeps end path s h = h
    walk_children_keeps (unreadable e) path s h = h
    walk_children_keeps (child name t cs) path s h =
        bind_keeps P (walk_tree fn (join path name) t) _ s (walk_keeps t (join path name) s h)
          (proceed_keeps _ (walk_children_keeps cs path))
