-- ===== src/Tests/Blobs.antt =====
-- The store.
use sgard.Base.{
  is_ok, ℕ, ◌≡◌, ◌≢◌, ◌==◌, eq_iff, refl, true, false, List, [], ◌∷◌, Text, Bytes, codes, arith,
  Result, ok, err, Bool-cases, inl, inr,
}
use sgard.Memory.{Files, memory, lookup}
use sgard.Memory.Laws.{memory-DiskLaws}
use sgard.Store.{hash_of, valid_hash, blob_path, write, read, exists, delete}
use sgard.Store.Laws.{hash_of-valid_hash}
use sgard.Store.Blobs.{write-other, read-write, write-IsIntact}
use sgard.Tests.Data.{place, rooted, hello, disk, no_blob, disk-IsIntact}

abbrev root : Text
root = codes "/r"

abbrev pub hash : Text
hash = hash_of memory hello

-- A blob of other bytes
abbrev pub other : Text
other = hash_of memory (codes "other")

abbrev pub wrote : Files
wrote = (write memory root hello disk).1

pub write_run : write memory root hello disk ≡ (ok hash, wrote)
unfolding write lookup sgard.Base.◌==◌ sgard.Store.blob_path sgard.Paths.join_all sgard.Paths.clean
    hash_of sgard.Store.hex sgard.Memory.checksum sgard.Host.Atomic.write_atomically
    sgard.Host.Atomic.move_into sgard.Host.Atomic.or_remove sgard.Host.Atomic.undone
    sgard.Memory.insert sgard.Paths.dir sgard.Memory.stem
write_run = refl

pub no_read : (j b : Text) → read memory root j disk ≡ ok b → ⊥
unfolding read
no_read j b r = elim (Bool-cases (valid_hash j)) [
  | inl v ↦ ground (arith, v, r, no_blob j v)
  | inr n ↦ ground (arith, n, r)
]

pub reads_back : read memory root hash wrote ≡ ok hello
reads_back =
    (read-write memory memory-DiskLaws place [] rooted hello disk wrote hash disk-IsIntact
      (λ b r same. absurd (no_read (hash_of memory hello) b r)) write_run).1

read-write_example : (hash ≡ hash_of memory hello) × (read memory root hash wrote ≡ ok hello)
read-write_example =
    read-write memory memory-DiskLaws place [] rooted hello disk wrote hash disk-IsIntact
      (λ b r same. absurd (no_read (hash_of memory hello) b r)) write_run

other-valid_hash : valid_hash other ≡ true
other-valid_hash = hash_of-valid_hash memory memory-DiskLaws (codes "other")

tests-apart : (hash == other) ≡ false
unfolding ◌==◌ hash_of sgard.Store.hex sgard.Memory.checksum
tests-apart = refl

hash-other : hash ≢ other
hash-other e = cc (tests-apart, (eq_iff hash other).1 e)

write-other_example :
    (exists memory root other wrote ≡ exists memory root other disk)
    × (read memory root other wrote ≡ read memory root other disk)
write-other_example =
    write-other memory memory-DiskLaws place [] rooted hello disk other other-valid_hash hash-other

abbrev deleted : Files
deleted = (delete memory root hash wrote).1

delete_by :
    (s : Files) (bytes : Bytes)
    → valid_hash hash ≡ true
    → read memory root hash s ≡ ok bytes
    → delete memory root hash s ≡ (ok tt, (delete memory root hash s).1)
unfolding delete read
delete_by s bytes v r = ground (arith, v, r)

delete_run : delete memory root hash wrote ≡ (ok tt, deleted)
delete_run = delete_by wrote hello (hash_of-valid_hash memory memory-DiskLaws hello) reads_back

exists_by :
    (s : Files) (bytes : Bytes) (j : Text)
    → read memory root j s ≡ ok bytes
    → exists memory root j s ≡ true
unfolding exists read
exists_by s bytes j r = ground (arith, r)

pub exists_back : exists memory root hash wrote ≡ true
exists_back = exists_by wrote hello hash reads_back

stat_by :
    (s : Files) (j : Text)
    → exists memory root j s ≡ true
    → is_ok (memory.stat (blob_path root j) s) ≡ true
unfolding exists
stat_by s j e = ground (arith, e)

write-IsIntact_example :
    (b : Bytes) × (memory.read_file (blob_path root hash) wrote ≡ ok b) × (hash_of memory b ≡ hash)
write-IsIntact_example =
    write-IsIntact memory memory-DiskLaws place [] rooted hello disk disk-IsIntact hash
      (hash_of-valid_hash memory memory-DiskLaws hello) (stat_by wrote hash exists_back)
