-- ===== src/Manifest.antt =====
-- manifest/manifest.go: the data of a repository. Saving and loading are in `Manifest.Disk`.
-- A `time.Time` is the number of nanoseconds since Go's zero time. A Go `int` is its 64 bits, as a
-- number. A map is a list of keys and values; its order stands for the order of a `range` loop.
pub mod Disk
pub mod Excluded
use sgard.Base.{
  ℕ, ◌++◌, Bool, true, false, Option, none, List, [], ◌∷◌, Text, codes, ◌==◌, has_prefix,
  has_suffix, if◌then◌else◌,
}
use sgard.Paths.{slash}

abbrev pub file_type : Text
file_type = codes "file"

abbrev pub link_type : Text
link_type = codes "link"

abbrev pub directory_type : Text
directory_type = codes "directory"

-- An `Entry`. `type` is "file", "link" or "directory", or whatever else a loaded manifest holds.
pub record Entry : Type 0 where
  pub path : Text
  pub hash : Text
  pub plaintext_hash : Text
  pub encrypted : Bool
  pub locked : Bool
  pub type : Text
  pub mode : Text
  pub target : Text
  pub updated : ℕ
  pub only : List Text
  pub never : List Text

pub record KekSlot : Type 0 where
  pub type : Text
  pub argon2_time : ℕ
  pub argon2_memory : ℕ
  pub argon2_threads : ℕ
  pub credential_id : Text
  pub salt : Text
  pub wrapped_dek : Text

pub record Encryption : Type 0 where
  pub algorithm : Text
  pub kek_slots : List (Text × KekSlot)

pub record Manifest : Type 0 where
  pub version : ℕ
  pub created : ℕ
  pub updated : ℕ
  pub message : Text
  pub files : List Entry
  pub exclude : List Text
  pub encryption : Option Encryption

-- The exclude entry with the separator that ends a directory
unfoldable pub with_slash : Text → Text
with_slash p = if has_suffix p (slash ∷ []) then p else p ++ (slash ∷ [])

-- The loop of `IsExcluded`
unfoldable pub matches_any : Text → List Text → Bool
matches_any tilde_path [] = false
matches_any tilde_path (ex ∷ rest) =
    if tilde_path == ex
    then true
    else if has_prefix tilde_path (with_slash ex)
    then true
    else matches_any tilde_path rest

-- `IsExcluded`
unfoldable pub is_excluded : Manifest → Text → Bool
unfolding matches_any with_slash
is_excluded m tilde_path = matches_any tilde_path m.exclude

-- `NewWithTime`
unfoldable pub new_with_time : ℕ → Manifest
new_with_time now = record {
  version = 1;
  created = now;
  updated = now;
  message = [];
  files = [];
  exclude = [];
  encryption = none;
}
