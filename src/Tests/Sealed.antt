-- ===== src/Tests/Sealed.antt =====
-- An encrypted file, stored beside another blob and read back.
use sgard.Base.{
  ℕ, zero, suc, ◌≡◌, refl, true, false, Option, none, some, List, [], ◌∷◌, ◌++◌, Text, Bytes, codes,
  arith, Result, ok, err, length, ap, is_ok, sym, ◌∙◌,
}
use sgard.Manifest.{Entry}
use sgard.Memory.{Files, memory, zeros}
use sgard.Memory.Laws.{memory-DiskLaws}
use sgard.Store
use sgard.Store.Blobs.{write-IsIntact}
use sgard.Garden.{Garden}
use sgard.Garden.Add.{store_file}
use sgard.Garden.Crypt.{encrypt_blob, decrypt_blob}
use sgard.Garden.Crypt.RoundTrip.{CipherLaws, decrypt_blob-encrypt_blob}
use sgard.Garden.Restore.{restored_bytes}
use sgard.Garden.Restore.RoundTrip.{NoCollision, to_store, restored_bytes-store_file}
use sgard.Tests.Data.{place, rooted, hello, disk, disk-IsIntact, entry, repo}
use sgard.Tests.Blobs.{wrote}

length-zeros : (n : ℕ) → length (zeros n) ≡ n
length-zeros zero = refl
length-zeros (suc n) = ap suc (length-zeros n)

pub memory-CipherLaws : CipherLaws memory
memory-CipherLaws = record {
  opens = λ key nonce plaintext. refl;
  rand_length = λ n s s' bs e. ground (arith, e, length-zeros n);
}

abbrev pub key : Bytes
key = zeros 32

abbrev ciphertext : Bytes
ciphertext = zeros 24 ++ (7 ∷ hello)

encrypt_run : encrypt_blob memory (some key) hello disk ≡ (ok ciphertext, disk)
unfolding encrypt_blob sgard.Garden.Crypt.seal_random
encrypt_run = refl

decrypt_blob-encrypt_blob_example : decrypt_blob memory (some key) ciphertext ≡ ok hello
decrypt_blob-encrypt_blob_example =
    decrypt_blob-encrypt_blob memory memory-CipherLaws (some key) hello ciphertext disk disk
      encrypt_run

abbrev garden : Garden
garden = record ((repo [] disk).garden) { dek = some key }

abbrev tracked : Entry
tracked = record (entry (codes "~/.bashrc") []) {
  hash = Store.hash_of memory ciphertext;
  plaintext_hash = Store.hash_of memory hello;
  encrypted = true;
}

abbrev stored : Files
stored = (Store.write memory (codes "/r") ciphertext wrote).1

write_run :
    Store.write memory (codes "/r") ciphertext wrote
    ≡ (ok (Store.hash_of memory ciphertext), stored)
unfolding Store.write sgard.Memory.lookup sgard.Base.◌==◌ Store.blob_path sgard.Paths.join_all
    sgard.Paths.clean Store.hash_of Store.hex sgard.Memory.checksum
    sgard.Host.Atomic.write_atomically sgard.Host.Atomic.move_into sgard.Host.Atomic.or_remove
    sgard.Host.Atomic.undone sgard.Memory.insert sgard.Paths.dir sgard.Memory.stem
    sgard.Memory.erase sgard.Paths.dir_part sgard.Paths.intercalate sgard.Paths.is_abs
    sgard.Paths.split
write_run = refl

encrypt_wrote : encrypt_blob memory (some key) hello wrote ≡ (ok ciphertext, wrote)
unfolding encrypt_blob sgard.Garden.Crypt.seal_random
encrypt_wrote = refl

there : memory.read_file (codes "/h/.bashrc") wrote ≡ ok hello
unfolding sgard.Memory.lookup sgard.Base.◌==◌ Store.write Store.blob_path sgard.Paths.join_all
    sgard.Paths.clean Store.hash_of Store.hex sgard.Memory.checksum
    sgard.Host.Atomic.write_atomically sgard.Host.Atomic.move_into sgard.Host.Atomic.or_remove
    sgard.Host.Atomic.undone sgard.Memory.insert sgard.Paths.dir sgard.Memory.stem
    sgard.Memory.erase
there = refl

store_file_run :
    store_file memory
      (some key)
      (codes "/r")
      (codes "/h/.bashrc")
      true
      (entry (codes "~/.bashrc") [])
      wrote
    ≡ (ok tracked, stored)
unfolding store_file
store_file_run = ground (arith, there, encrypt_wrote, write_run)

not_there : is_ok (Store.read memory (codes "/r") (Store.hash_of memory ciphertext) wrote) ≡ false
unfolding Store.read Store.hash_of Store.valid_hash Store.hex sgard.Memory.checksum
    sgard.Memory.lookup Store.write sgard.Base.◌==◌ Store.blob_path sgard.Paths.join_all
    sgard.Paths.clean sgard.Host.Atomic.write_atomically sgard.Host.Atomic.move_into
    sgard.Host.Atomic.or_remove sgard.Host.Atomic.undone sgard.Memory.insert sgard.Paths.dir
    sgard.Memory.stem sgard.Memory.erase sgard.Paths.dir_part sgard.Paths.intercalate
    sgard.Paths.is_abs sgard.Paths.split Store.all_hex Store.is_hex_char
not_there = refl

apart_by :
    (c b : Bytes)
    → ciphertext ≡ c
    → Store.read memory (codes "/r") (Store.hash_of memory c) wrote ≡ ok b
    → ⊥
apart_by c b e r = cc (
  not_there,
  ap is_ok
      (ap (λ (x : Bytes). Store.read memory (codes "/r") (Store.hash_of memory x) wrote) e ∙ r),
)

apart :
    (c : Bytes)
    → to_store memory memory-DiskLaws place [] rooted (some key) true hello wrote ≡ ok c
    → NoCollision memory memory-DiskLaws place [] rooted c wrote
apart c e b r same = absurd (
    apart_by c b
      (ap (λ (x : Result Bytes). elim x as (λ _. Bytes) [ ok y ↦ y | err _ ↦ c ])
        (ap (λ (x : Result Bytes × Files). x.0) (sym encrypt_wrote) ∙ e))
      r)

restored_bytes-store_file_example : restored_bytes memory garden tracked stored ≡ ok hello
restored_bytes-store_file_example =
    restored_bytes-store_file memory memory-DiskLaws place [] rooted memory-CipherLaws garden refl
      (codes "/h/.bashrc") true (entry (codes "~/.bashrc") []) tracked hello wrote stored
      (write-IsIntact memory memory-DiskLaws place [] rooted hello disk disk-IsIntact) apart refl
      there store_file_run
