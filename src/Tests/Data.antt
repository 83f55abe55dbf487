-- ===== src/Tests/Data.antt =====
-- The data of the tests: the repository /r on the host in memory, whose home directory is /h.
use sgard.Base.{true, false, none, List, [], ◌∷◌, Text, Bytes, codes, All, refl, ◌≡◌, arith, ◌==◌}
use sgard.Paths.Clean.{IsComponent}
use sgard.Manifest.{Manifest, Entry, file_type, new_with_time}
use sgard.Memory.{Files, memory, lookup}
use sgard.Store.{valid_hash, blob_path}
use sgard.Store.Blobs.{IsIntact}
use sgard.Store.Places.{blob_path-eq}
use sgard.Memory.Laws.{memory-DiskLaws}
use sgard.Garden.{Repo, new_garden}

abbrev pub place : Text
place = codes "r"

pub rooted : All IsComponent (codes "r" ∷ [])
unfolding ◌==◌
rooted = (record { no_slash = (refl, tt); not_nil = refl; not_dot = refl; not_dot_dot = refl }, tt)

pub homed : All IsComponent (codes "h" ∷ [])
unfolding ◌==◌
homed = (record { no_slash = (refl, tt); not_nil = refl; not_dot = refl; not_dot_dot = refl }, tt)

abbrev pub hello : Bytes
hello = codes "hello"

-- A disk with one file in the home directory
abbrev pub disk : Files
disk = (codes "/h/.bashrc", hello) ∷ []

pub no_blob : (j : Text) → valid_hash j ≡ true → lookup (blob_path (codes "/r") j) disk ≡ none
unfolding lookup ◌==◌
no_blob j v = rw (blob_path-eq place [] rooted j v) refl

pub disk-IsIntact : IsIntact memory memory-DiskLaws place [] rooted disk
disk-IsIntact j v there = absurd (ground (arith, no_blob j v, there))

abbrev pub entry : Text → Text → Entry
entry path hash = record {
  path = path;
  hash = hash;
  plaintext_hash = [];
  encrypted = false;
  locked = false;
  type = file_type;
  mode = codes "0644";
  target = [];
  updated = 7;
  only = [];
  never = [];
}

abbrev pub manifest_of : List Entry → Manifest
manifest_of es = record (new_with_time 7) { files = es }

abbrev pub repo : List Entry → Files → Repo memory
repo es s = record { garden = new_garden (manifest_of es) (codes "/r"); disk = s }
