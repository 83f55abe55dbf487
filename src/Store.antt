-- ===== src/Store.antt =====
-- store/store.go: blobs on disk under <root>/blobs, named by the SHA-256 hash of their bytes.
pub mod Hash
pub mod Places
pub mod Laws
pub mod Failures
pub mod Blobs
pub mod Growing
pub mod Beside
use sgard.Base.{
  ℕ, ◌+◌, ◌-◌, ◌/◌, ◌%◌, ◌<◌, Bool, true, false, ◌&&◌, ◌||◌, List, [], ◌∷◌, ◌++◌, Text, Bytes,
  codes, leb, eqb, if◌then◌else◌, length, take, drop, Result, ok, err, Error, invalid_hash, Exec,
  pure, fail, lift, is_ok, ◌>>=◌, ◌>>◌, is_not_exist,
}
use sgard.Paths.{join, join_all, dir, base}
use sgard.Host.{Host}
use sgard.Host.Atomic.{write_atomically}
use sgard.Host.Walk.{Tree, Visit, go_on, walk_tree}

hex_digit : ℕ → ℕ
hex_digit n = if leb n 9 then b'0' + n else b'a' + (n - 10)

-- hex.EncodeToString
unfoldable pub hex : Bytes → Text
unfolding hex_digit
hex [] = []
hex (b ∷ bs) = hex_digit (b / 16) ∷ hex_digit (b % 16) ∷ hex bs

unfoldable pub is_hex_char : ℕ → Bool
is_hex_char c = (leb b'0' c && leb c b'9') || (leb b'a' c && leb c b'f')

unfoldable pub all_hex : Text → Bool
unfolding is_hex_char
all_hex [] = true
all_hex (c ∷ s) = if is_hex_char c then all_hex s else false

-- `validHash`
unfoldable pub valid_hash : Text → Bool
unfolding all_hex
valid_hash s = if eqb (length s) 64 then all_hex s else false

-- `blobPath`
unfoldable pub blob_path : Text → Text → Text
blob_path root hash =
    join_all (root ∷ codes "blobs" ∷ take 2 hash ∷ take 2 (drop 2 hash) ∷ hash ∷ [])

-- The callback of `List`: `d.Name()` is the last component of the path.
collect_blob : Text → Bool → Exec (List Text) Visit
collect_blob path true hashes = (ok go_on, hashes)
collect_blob path false hashes =
    let name = base path in (ok go_on, (if valid_hash name then hashes ++ (name ∷ []) else hashes))

listing : Result Visit × List Text → Result (List Text)
listing (ok _, hashes) = ok hashes
listing (err e, hashes) = if is_not_exist e then ok [] else err e

module _ (h : Host) where
  -- `HashFile` and `plaintextHash` too are this, of a file's bytes
  unfoldable pub hash_of : Bytes → Text
  hash_of bytes = hex (h.sha256 bytes)

  module _ (root : Text) where
    -- `New`
    unfoldable pub new : Exec h.State (Unit {0})
    new = h.mkdir_all (join root (codes "blobs")) 0o755

    -- `Write`
    unfoldable pub write : Bytes → Exec h.State Text
    write bytes s =
        let hash = hash_of bytes in
        let p = blob_path root hash in
        elim (h.stat p s) [
          | ok _ ↦ (ok hash, s)
          | err _ ↦
              (do
                h.mkdir_all (dir p) 0o755
                write_atomically h (codes ".blob-*") p bytes
                pure hash)
                s
        ]

    -- `Read`
    unfoldable pub read : Text → h.State → Result Bytes
    read hash s =
        if valid_hash hash then h.read_file (blob_path root hash) s else err (invalid_hash hash)

    -- `Exists`
    unfoldable pub exists : Text → h.State → Bool
    exists hash s = if valid_hash hash then is_ok (h.stat (blob_path root hash) s) else false

    -- `Delete`
    unfoldable pub delete : Text → Exec h.State (Unit {0})
    delete hash =
        if valid_hash hash then h.remove (blob_path root hash) else fail (invalid_hash hash)

    -- `List`
    unfoldable pub list : h.State → Result (List Text)
    unfolding collect_blob listing
    list s =
        let blobs = join root (codes "blobs") in
        elim (h.walk blobs s) [
          | ok tree ↦ listing (walk_tree collect_blob blobs tree [])
          | err e ↦ listing (err e, [])
        ]
