-- ===== src/Memory.antt =====
-- A host in memory, for the examples: regular files by path, no directories of their own, and simple
-- stand-ins for the digest, the cipher and the serialiser.
pub mod Laws
use sgard.Base.{
  ℕ, zero, suc, ◌+◌, ◌*◌, ◌%◌, ◌≡◌, refl, Bool, true, false, Option, none, some, List, [], ◌∷◌,
  ◌++◌, Text, Bytes, codes, ◌==◌, has_prefix, length, drop, if◌then◌else◌, Result, ok, err,
  not_exist, Exec, io,
}
use sgard.Paths.{slash}
use sgard.Manifest.{Manifest}
use sgard.Host.{Host, Info}
use sgard.Host.Walk.{Tree, leaf, folder, Children, end, child}

abbrev pub Files : Type 0
Files = List (Text × Bytes)

unfoldable pub lookup : Text → Files → Option Bytes
lookup p [] = none
lookup p ((q, b) ∷ fs) = if q == p then some b else lookup p fs

unfoldable pub insert : Text → Bytes → Files → Files
insert p b [] = (p, b) ∷ []
insert p b ((q, c) ∷ fs) = if q == p then (p, b) ∷ fs else (q, c) ∷ insert p b fs

unfoldable pub erase : Text → Files → Files
erase p [] = []
erase p ((q, c) ∷ fs) = let rest = erase p fs in if q == p then rest else (q, c) ∷ rest

abbrev pub info : Info
info = record { perm = 0o644; is_dir = false; is_symlink = false; mod_time = 0 }

abbrev pub found : {A : Type 0} → A → Option Bytes → Result A
found a none = err not_exist
found a (some b) = ok a

abbrev pub bytes_of : Option Bytes → Result Bytes
bytes_of none = err not_exist
bytes_of (some b) = ok b

-- A pattern without its last byte
unfoldable pub stem : Text → Text
stem [] = []
stem (c ∷ []) = []
stem (c ∷ d ∷ s) = c ∷ stem (d ∷ s)

abbrev pub temp_name : Text → Text → Text
temp_name d pattern = d ++ (slash ∷ (stem pattern ++ codes "1"))

abbrev pub append_to : Text → Bytes → Option Bytes → Exec Files (Unit {0})
append_to n b none s = (err not_exist, s)
append_to n b (some old) s = (ok tt, insert n (old ++ b) s)

abbrev pub move : Text → Text → Option Bytes → Exec Files (Unit {0})
move a b none s = (err not_exist, s)
move a b (some bytes) s = (ok tt, insert b bytes (erase a s))

abbrev pub take_away : Text → Option Bytes → Exec Files (Unit {0})
take_away p none s = (err not_exist, s)
take_away p (some bytes) s = (ok tt, erase p s)

unfoldable pub checksum : Bytes → ℕ
checksum [] = 0
checksum (b ∷ bs) = b * 31 + checksum bs * 7 + 1

abbrev pub zeros : ℕ → Bytes
zeros zero = []
zeros (suc n) = 0 ∷ zeros n

abbrev pub digest : Bytes → Bytes
digest bs = (checksum bs % 256) ∷ (length bs % 256) ∷ zeros 30

unfoldable pub leaves : Text → Files → Children
leaves p [] = end
leaves p ((q, b) ∷ fs) =
    let rest = leaves p fs in
    if has_prefix q (p ++ (slash ∷ []))
    then child (drop (length (p ++ (slash ∷ []))) q) leaf rest
    else rest

-- The manifest that the serialiser reads: one with a passphrase slot
abbrev pub sealed_manifest : Manifest
sealed_manifest = record {
  version = 1;
  created = 7;
  updated = 7;
  message = [];
  files = [];
  exclude = [];
  encryption = some (record {
    algorithm = codes "xchacha20-poly1305";
    kek_slots =
        (
          codes "passphrase",
          record {
            type = codes "passphrase";
            argon2_time = 3;
            argon2_memory = 65536;
            argon2_threads = 4;
            credential_id = [];
            salt = zeros 16;
            wrapped_dek = zeros 24 ++ (7 ∷ zeros 32);
          },
        )
        ∷ [];
  });
}

abbrev pub memory : Host
memory = record {
  State = Files;
  lstat = λ p s. found info (lookup p s);
  stat = λ p s. found info (lookup p s);
  read_file = λ p s. bytes_of (lookup p s);
  readlink = λ p s. err (io p);
  walk = λ p s. ok (folder (leaves p s));
  write_file = λ p b mode s. (ok tt, insert p b s);
  mkdir_all = λ d mode s. (ok tt, s);
  remove = λ p s. take_away p (lookup p s) s;
  symlink = λ target p s. (err (io p), s);
  rename = λ a b s. move a b (lookup a s) s;
  create_temp = λ d pattern s. (ok (temp_name d pattern), insert (temp_name d pattern) [] s);
  write_temp = λ n b s. append_to n b (lookup n s) s;
  close_temp = λ n s. (ok tt, s);
  home = ok (codes "/h");
  cwd = ok (codes "/h");
  hostname = ok (codes "Vade.example");
  goos = codes "linux";
  goarch = codes "amd64";
  sha256 = digest;
  rand = λ n s. (ok (zeros n), s);
  seal = λ key nonce b. 7 ∷ b;
  unseal = λ key nonce b. elim b [ [] ↦ none | c ∷ b' ↦ some b' ];
  marshal = λ m. ok (codes "manifest");
  unmarshal = λ b. if b == codes "manifest" then ok sealed_manifest else err (io b);
}
