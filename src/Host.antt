-- ===== src/Host.antt =====
-- What the program calls and does not implement: the operating system through packages os and
-- path/filepath, package crypto/sha256, the random source, and the third-party libraries for YAML,
-- XChaCha20-Poly1305 and Argon2. Each is a field, and nothing is assumed of a field here.
pub mod Walk
pub mod Atomic
pub mod Laws
use sgard.Base.{ℕ, Bool, Option, List, Text, Bytes, Result, Exec}
use sgard.Manifest.{Manifest}
use Walk.{Tree}

-- os.FileInfo: the permission bits, the kind, and the time of the last change
pub record Info : Type 0 where
  pub perm : ℕ
  pub is_dir : Bool
  pub is_symlink : Bool
  pub mod_time : ℕ

pub record Host : Type 1 where
  -- the file system
  pub State : Type 0
  pub lstat : Text → State → Result Info
  pub stat : Text → State → Result Info
  pub read_file : Text → State → Result Bytes
  pub readlink : Text → State → Result Text
  -- what filepath.WalkDir meets below a path; an error where the path is not there
  pub walk : Text → State → Result Tree
  pub write_file : Text → Bytes → ℕ → Exec State (Unit {0})
  pub mkdir_all : Text → ℕ → Exec State (Unit {0})
  pub remove : Text → Exec State (Unit {0})
  pub symlink : Text → Text → Exec State (Unit {0})
  pub rename : Text → Text → Exec State (Unit {0})
  -- os.CreateTemp in a directory, by a pattern; the name of the new file. Then its Write and Close
  pub create_temp : Text → Text → Exec State Text
  pub write_temp : Text → Bytes → Exec State (Unit {0})
  pub close_temp : Text → Exec State (Unit {0})
  -- the environment of the process
  pub home : Result Text
  pub cwd : Result Text
  pub hostname : Result Text
  pub goos : Text
  pub goarch : Text
  -- crypto
  pub sha256 : Bytes → Bytes
  pub rand : ℕ → Exec State Bytes
  pub seal : Bytes → Bytes → Bytes → Bytes
  pub unseal : Bytes → Bytes → Bytes → Option Bytes
  -- yaml.v3
  pub marshal : Manifest → Result Bytes
  pub unmarshal : Bytes → Result Manifest
