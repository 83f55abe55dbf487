-- ===== src/Host/Laws.antt =====
-- What the proofs assume of the operating system, where they assume anything: the documented effect
-- of the calls on regular files, on a disk where no symbolic link and no second hard link leads to a
-- path that is written. A call that works on one path does not touch a path of which that one is
-- neither an extension nor equal to it: only the path itself and the directories above it change.
-- The calls are documented so for clean paths, and for a directory that is not the root; the proofs
-- apply the laws at the paths of blobs, of the manifest and of what lies beside them, below the root
-- of a repository, which are such paths.
use sgard.Base.{
  ℕ, ◌≡◌, ◌<◌, refl, ◌∙◌, true, false, ◌++◌, [], ◌∷◌, Text, Bytes, has_prefix, length, is_ok, ok,
  err, Error, All,
}
use sgard.Paths.{slash}
use sgard.Host.{Host}

-- The path shows the same on both disks.
pub record SameAt (h : Host) (q : Text) (s s' : h.State) : Type 0 where
  pub lstat : h.lstat q s' ≡ h.lstat q s
  pub stat : h.stat q s' ≡ h.stat q s
  pub read_file : h.read_file q s' ≡ h.read_file q s
  pub readlink : h.readlink q s' ≡ h.readlink q s

pub SameAt-refl : (h : Host) (q : Text) (s : h.State) → SameAt h q s s
SameAt-refl h q s = record { lstat = refl; stat = refl; read_file = refl; readlink = refl }

pub SameAt-trans :
    {h : Host} {q : Text} {s t u : h.State} → SameAt h q s t → SameAt h q t u → SameAt h q s u
SameAt-trans a b = record {
  lstat = b.lstat ∙ a.lstat;
  stat = b.stat ∙ a.stat;
  read_file = b.read_file ∙ a.read_file;
  readlink = b.readlink ∙ a.readlink;
}

pub record DiskLaws (h : Host) : Type 0 where
  pub mkdir_all_frame :
      (d : Text) (m : ℕ) (s : h.State) (q : Text)
      → has_prefix d q ≡ false
      → SameAt h q s (h.mkdir_all d m s).1
  -- the name that os.CreateTemp makes of a pattern that ends in `*`
  pub create_temp_name :
      (d pre : Text) (s s' : h.State) (n : Text)
      → h.create_temp d (pre ++ (b'*' ∷ [])) s ≡ (ok n, s')
      → (r : Text) × (n ≡ d ++ (slash ∷ (pre ++ r)))
  pub create_temp_frame :
      (d pattern : Text) (s s' : h.State) (n q : Text)
      → h.create_temp d pattern s ≡ (ok n, s')
      → has_prefix n q ≡ false
      → SameAt h q s s'
  pub create_temp_failed :
      (d pattern : Text) (s s' : h.State) (x : Error) (q : Text)
      → h.create_temp d pattern s ≡ (err x, s')
      → SameAt h q s s'
  pub create_temp_empty :
      (d pattern : Text) (s s' : h.State) (n : Text)
      → h.create_temp d pattern s ≡ (ok n, s')
      → h.read_file n s' ≡ ok []
  pub write_temp_frame :
      (n : Text) (bs : Bytes) (s : h.State) (q : Text)
      → has_prefix n q ≡ false
      → SameAt h q s (h.write_temp n bs s).1
  pub write_temp_appends :
      (n : Text) (old bs : Bytes) (s s' : h.State)
      → h.write_temp n bs s ≡ (ok tt, s')
      → h.read_file n s ≡ ok old
      → h.read_file n s' ≡ ok (old ++ bs)
  pub close_temp_frame : (n : Text) (s : h.State) (q : Text) → SameAt h q s (h.close_temp n s).1
  pub rename_frame :
      (a b : Text) (s : h.State) (q : Text)
      → has_prefix a q ≡ false
      → has_prefix b q ≡ false
      → SameAt h q s (h.rename a b s).1
  pub rename_failed :
      (a b : Text) (s s' : h.State) (x : Error) (q : Text)
      → h.rename a b s ≡ (err x, s')
      → SameAt h q s s'
  pub rename_moves :
      (a b : Text) (s s' : h.State)
      → h.rename a b s ≡ (ok tt, s')
      → h.read_file b s' ≡ h.read_file a s
  pub remove_frame :
      (p : Text) (s : h.State) (q : Text) → has_prefix p q ≡ false → SameAt h q s (h.remove p s).1
  pub remove_gone :
      (p : Text) (s s' : h.State) → h.remove p s ≡ (ok tt, s') → is_ok (h.stat p s') ≡ false
  pub stat_read :
      (p : Text) (s : h.State) (bs : Bytes) → h.read_file p s ≡ ok bs → is_ok (h.stat p s) ≡ true
  pub rand_frame : (n : ℕ) (s : h.State) (q : Text) → SameAt h q s (h.rand n s).1
  -- sha256.Sum256 gives 32 bytes
  pub digest_length : (bs : Bytes) → length (h.sha256 bs) ≡ 32
  pub digest_bytes : (bs : Bytes) → All (λ b. b < 256) (h.sha256 bs)
