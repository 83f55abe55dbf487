-- ===== src/Sync/Chunks.antt =====
-- The chunks of a blob: the loop that `PullBlobs` of server/server.go and `doPush` of
-- client/client.go share, and the loop that puts them together again, which `PushBlobs` and `doPull`
-- share. A stream is the messages that `Recv` gives, a missing chunk is none, and how it ends: ok at
-- io.EOF, or the error of the transport.
pub mod Reassembly
pub mod Keeping
use Prim.Native.Nat.{min}
use sgard.Base.{
  ℕ, zero, suc, ◌+◌, ◌-◌, ◌%◌, ◌^◌, true, false, Option, none, some, List, [], ◌∷◌, ◌++◌, Text,
  Bytes, ◌==◌, ltb, eqb, if◌then◌else◌, length, take, drop, Result, ok, err, Exec, pure, ◌>>=◌,
  ◌>>◌, hash_mismatch,
}
use sgard.Store
use sgard.Host.{Host}
use sgard.Sync.Proto.{BlobChunk}
use sgard.Garden.{Repo}

abbrev pub chunk_size : ℕ
chunk_size = 65536

-- The loop from the index `i` on. The fuel is for the rounds.
unfoldable pub chunk_loop : ℕ → Text → Bytes → ℕ → List BlobChunk
chunk_loop zero hash bytes i = []
chunk_loop (suc fuel) hash bytes i =
    let end = min (i + chunk_size) (length bytes) in
    let chunk : BlobChunk = record {
      hash = if eqb i 0 then hash else [];
      bytes = take (end - i) (drop i bytes);
    } in
    let rest = chunk_loop fuel hash bytes (i + chunk_size) in
    if ltb i (length bytes) then chunk ∷ rest else []

-- The chunks of one blob; an empty blob has one chunk
unfoldable pub blob_chunks : Text → Bytes → List BlobChunk
blob_chunks hash bytes =
    chunk_loop (suc (length bytes)) hash bytes 0
    ++ (if eqb (length bytes) 0 then record { hash = hash; bytes = [] } ∷ [] else [])

module _ (h : Host) where
  -- `writeAndVerify`, of both packages
  unfoldable pub write_and_verify : Text → Bytes → Exec (Repo h) (Unit {0})
  write_and_verify expected bytes s =
      let (r, d) = Store.write h s.garden.root bytes s.disk in
      elim r [
        | err x ↦ (err x, record s { disk = d })
        | ok got ↦
            if got == expected
            then (ok tt, record s { disk = d })
            else (err (hash_mismatch expected), record s { disk = d })
      ]

  -- `if currentHash != ""`: the blob that is complete goes to the store and is counted
  unfoldable pub flush : Text → Bytes → ℕ → Exec (Repo h) ℕ
  flush current buf count =
      if current == []
      then pure count
      else (write_and_verify current buf >> pure ((count + 1) % 2 ^ 32))

  -- The loop that receives, and the last blob behind it
  unfoldable pub receive :
      List (Option BlobChunk) → Result (Unit {0}) → Text → Bytes → ℕ → Exec (Repo h) ℕ
  unfolding flush
  receive [] (err x) current buf count = λ s. (err x, s)
  receive [] (ok _) current buf count = flush current buf count
  receive (none ∷ ms) end current buf count = receive ms end current buf count
  receive (some chunk ∷ ms) end current buf count = elim (chunk.hash == []) [
    | true ↦ receive ms end current (buf ++ chunk.bytes) count
    | false ↦ flush current buf count >>= λ count'. receive ms end chunk.hash chunk.bytes count'
  ]
