-- ===== src/Garden/Checkpoint/Keeps.antt =====
-- What a checkpoint leaves alone in each entry.
use sgard.Base.{
  ℕ, ◌≡◌, refl, ◌⊎◌, inl, List, [], ◌∷◌, Text, AllPairs, update_each, update_each_pairs, arith,
  if◌then◌else◌,
}
use sgard.Manifest.{Entry}
use sgard.Host.{Host}
use sgard.Garden.{Garden, Repo, files, save_manifest}
use sgard.Garden.Identity.{identity}
use sgard.Garden.Unique.{paths}
use sgard.Garden.Checkpoint.{
  checkpoint_encrypted, rehash, checkpoint_file, checkpoint_link, checkpoint_content,
  checkpoint_entry, checkpoint,
}

-- An entry before a step at the time `now` and after it.
pub record Keeps (now : ℕ) (e e' : Entry) : Type 0 where
  pub path : e'.path ≡ e.path
  pub type : e'.type ≡ e.type
  pub encrypted : e'.encrypted ≡ e.encrypted
  pub locked : e'.locked ≡ e.locked
  pub only : e'.only ≡ e.only
  pub never : e'.never ≡ e.never
  -- a locked entry keeps all but its mode
  pub authoritative : e' ≡ (if e.locked then record e { mode = e'.mode } else e')
  -- new content has the time of the step
  pub stamped :
      ((e'.hash ≡ e.hash)
        × (e'.plaintext_hash ≡ e.plaintext_hash)
        × (e'.target ≡ e.target)
        × (e'.updated ≡ e.updated))
      ⊎ (e'.updated ≡ now)

Keeps-refl : (now : ℕ) (e : Entry) → Keeps now e e
Keeps-refl now e = record {
  path = refl;
  type = refl;
  encrypted = refl;
  locked = refl;
  only = refl;
  never = refl;
  authoritative = ground arith;
  stamped = inl (refl, refl, refl, refl);
}

module _ (h : Host) (g : Garden) (now : ℕ) where
  -- What the content of an entry that is not locked may become
  pub record KeepsOpen (e e' : Entry) : Type 0 where
    pub path : e'.path ≡ e.path
    pub type : e'.type ≡ e.type
    pub mode : e'.mode ≡ e.mode
    pub encrypted : e'.encrypted ≡ e.encrypted
    pub locked : e'.locked ≡ e.locked
    pub only : e'.only ≡ e.only
    pub never : e'.never ≡ e.never
    pub stamped :
        ((e'.hash ≡ e.hash)
          × (e'.plaintext_hash ≡ e.plaintext_hash)
          × (e'.target ≡ e.target)
          × (e'.updated ≡ e.updated))
        ⊎ (e'.updated ≡ now)

  checkpoint_content-KeepsOpen :
      (path : Text) (e : Entry) (s : h.State) → KeepsOpen e (checkpoint_content h g now path e s).1
  unfolding checkpoint_content checkpoint_file checkpoint_encrypted rehash checkpoint_link
  checkpoint_content-KeepsOpen path e s = ground arith

  checkpoint_entry-Keeps :
      (labels : List Text) (e : Entry) (s : h.State)
      → Keeps now e (checkpoint_entry h g now labels e s).1
  unfolding checkpoint_entry
  checkpoint_entry-Keeps labels e s = grind (arith, checkpoint_content-KeepsOpen)

module _ (h : Host) where
  files-save_manifest : (s : Repo h) → (save_manifest h s).1.garden ≡ s.garden
  unfolding save_manifest
  files-save_manifest s = refl

  files-checkpoint :
      (message : Text) (now : ℕ) (s : Repo h)
      → files (checkpoint h message now s).1
        ≡ (update_each
            (checkpoint_entry h s.garden now (identity h s.garden.root s.disk))
            (files s)
            s.disk).1
  unfolding checkpoint
  files-checkpoint message now s = grind (arith, files-save_manifest)

  -- A checkpoint, failing or not, keeps the entries in their order, each with its path, type,
  -- targeting and flags. An entry that was locked keeps all but its mode. Where the hash, the
  -- plaintext hash or the target of an entry is new, its time is that of the checkpoint.
  pub checkpoint-Keeps :
      (message : Text) (now : ℕ) (s : Repo h)
      → AllPairs (Keeps now) (files s) (files (checkpoint h message now s).1)
  checkpoint-Keeps message now s = rw files-checkpoint (
      update_each_pairs (Keeps now)
        (checkpoint_entry h s.garden now (identity h s.garden.root s.disk)) (Keeps-refl now)
        (checkpoint_entry-Keeps h s.garden now _) (files s) s.disk)

pub paths-Keeps : (now : ℕ) (xs ys : List Entry) → AllPairs (Keeps now) xs ys → paths ys ≡ paths xs
paths-Keeps now [] [] p = refl
paths-Keeps now [] (y ∷ ys) p = absurd p
paths-Keeps now (x ∷ xs) [] p = absurd p
paths-Keeps now (x ∷ xs) (y ∷ ys) (k, p) = cc (k.path, paths-Keeps now xs ys p)
