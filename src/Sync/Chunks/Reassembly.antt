-- ===== src/Sync/Chunks/Reassembly.antt =====
-- Blobs that are cut into chunks and put together again are the blobs that were cut.
use Prim.Native.Nat.{min}
use sgard.Base.{
  ℕ, zero, suc, ◌≡◌, ◌≢◌, ◌≤◌, ◌<◌, ◌+◌, ◌-◌, ◌%◌, ◌^◌, refl, ◌∙◌, sym, ap, true, false, Option,
  some, List, [], ◌∷◌, ◌++◌, map, Text, Bytes, ◌==◌, eq_iff, ne_false, ltb, leb, eqb, if◌then◌else◌,
  length, take, drop, take-append-drop, All, Result, ok, bind_assoc, for_each, for_each-cons, Exec,
  pure, ◌>>=◌, ◌>>◌, Bool-cases, inl, inr, arith,
}
use mathlib.Core.List.{append_assoc, append-nil}
use mathlib.Core.Path.{fun_ext}
use sgard.Host.{Host}
use sgard.Sync.Proto.{BlobChunk}
use sgard.Sync.Chunks.{chunk_size, chunk_loop, blob_chunks, write_and_verify, flush, receive}
use sgard.Garden.{Repo}

drop_all : (n : ℕ) (xs : Bytes) → length xs ≤ n → drop n xs ≡ []
drop_all zero [] le = refl
drop_all zero (x ∷ xs) le = absurd (omega arith)
drop_all (suc n) [] le = refl
drop_all (suc n) (x ∷ xs) le = drop_all n xs (omega arith)

drop-drop : (i k : ℕ) (xs : Bytes) → drop k (drop i xs) ≡ drop (i + k) xs
drop-drop zero k xs = ap (λ n. drop n xs) (omega arith)
drop-drop (suc i) k [] = drop_all k [] (omega arith) ∙ sym (drop_all (suc i + k) [] (omega arith))
drop-drop (suc i) k (x ∷ xs) = drop-drop i k xs ∙ ap (λ n. drop n (x ∷ xs)) plus
  where
    plus : suc (i + k) ≡ suc i + k
    plus = omega arith

-- What a round cuts off, and what the later rounds begin at, make what it began at.
round_bytes :
    (i : ℕ) (bytes : Bytes)
    → i < length bytes
    → take (min (i + chunk_size) (length bytes) - i) (drop i bytes) ++ drop (i + chunk_size) bytes
      ≡ drop i bytes
round_bytes i bytes within =
    ap (λ r. take cut (drop i bytes) ++ r) later ∙ take-append-drop cut (drop i bytes)
  where
    cut : ℕ
    cut = min (i + chunk_size) (length bytes) - i

    later : drop (i + chunk_size) bytes ≡ drop cut (drop i bytes)
    later = elim (Bool-cases (leb (i + chunk_size) (length bytes))) [
      | inl inside ↦ rw (drop-drop i cut bytes) (ap (λ n. drop n bytes) (ground arith))
      | inr beyond ↦ rw (drop-drop i cut bytes) (
          drop_all (i + chunk_size) bytes (ground arith)
          ∙ sym (drop_all (i + cut) bytes (ground arith)))
    ]

-- The bytes of the chunks, one after another
abbrev pub joined : List BlobChunk → Bytes
joined [] = []
joined (c ∷ cs) = c.bytes ++ joined cs

-- The loop from `i` on has the bytes from `i` on, where the fuel is enough.
joined-chunk_loop :
    (fuel : ℕ) (hash : Text) (bytes : Bytes) (i : ℕ)
    → length bytes < fuel + i
    → joined (chunk_loop fuel hash bytes i) ≡ drop i bytes
unfolding chunk_loop
joined-chunk_loop zero hash bytes i enough = sym (drop_all i bytes (omega arith))
joined-chunk_loop (suc fuel) hash bytes i enough = elim (Bool-cases (ltb i (length bytes))) [
  | inl within ↦
      rw (within, joined-chunk_loop fuel hash bytes (i + chunk_size) (omega arith))
        (round_bytes i bytes (ground arith))
  | inr done ↦ rw done (sym (drop_all i bytes (ground arith)))
]

-- Chunks that follow the first one of a blob
abbrev pub Follow : List BlobChunk → Type 0
Follow = All (λ c. c.hash ≡ [])

chunk_loop-Follow :
    (fuel : ℕ) (hash : Text) (bytes : Bytes) (i : ℕ) → 0 < i → Follow (chunk_loop fuel hash bytes i)
unfolding chunk_loop
chunk_loop-Follow zero hash bytes i later = tt
chunk_loop-Follow (suc fuel) hash bytes i later =
    ground (arith, chunk_loop-Follow fuel hash bytes (i + chunk_size))

chunk_loop-none :
    (fuel : ℕ) (hash : Text) (bytes : Bytes) (i : ℕ)
    → ltb i (length bytes) ≡ false
    → chunk_loop (suc fuel) hash bytes i ≡ []
unfolding chunk_loop
chunk_loop-none fuel hash bytes i done = rw done refl

chunk_loop-some :
    (fuel : ℕ) (hash : Text) (bytes : Bytes) (i : ℕ)
    → i < length bytes
    → chunk_loop (suc fuel) hash bytes i
      ≡ record {
        hash = if eqb i 0 then hash else [];
        bytes = take (min (i + chunk_size) (length bytes) - i) (drop i bytes);
      }
        ∷ chunk_loop fuel hash bytes (i + chunk_size)
unfolding chunk_loop
chunk_loop-some fuel hash bytes i within = rw ltb_true refl
  where
    ltb_true : ltb i (length bytes) ≡ true
    ltb_true = ground arith

-- The chunks of a blob, as a first chunk and what follows it
blob_chunks-split :
    (hash : Text) (bytes : Bytes)
    → (c : BlobChunk) × (cs : List BlobChunk) × (blob_chunks hash bytes ≡ c ∷ cs)
      × (c.hash ≡ hash)
      × Follow cs
      × (c.bytes ++ joined cs ≡ bytes)
unfolding blob_chunks
blob_chunks-split hash [] = (record { hash = hash; bytes = [] }, [], one, refl, tt, refl)
  where
    one : blob_chunks hash [] ≡ record { hash = hash; bytes = [] } ∷ []
    one =
        ap (λ l. l ++ (record { hash = hash; bytes = [] } ∷ [])) (chunk_loop-none 0 hash [] 0 refl)
blob_chunks-split hash (b ∷ bs) = (
  record {
    hash = hash;
    bytes = take (min (0 + chunk_size) (length (b ∷ bs)) - 0) (drop 0 (b ∷ bs));
  },
  chunk_loop (length (b ∷ bs)) hash (b ∷ bs) (0 + chunk_size),
  cut,
  refl,
  chunk_loop-Follow (length (b ∷ bs)) hash (b ∷ bs) (0 + chunk_size) (omega arith),
  ap (λ r. take (min (0 + chunk_size) (length (b ∷ bs)) - 0) (drop 0 (b ∷ bs)) ++ r)
        (joined-chunk_loop (length (b ∷ bs)) hash (b ∷ bs) (0 + chunk_size) (omega arith))
      ∙ round_bytes 0 (b ∷ bs) (omega arith),
)
  where
    not_empty : eqb (length (b ∷ bs)) 0 ≡ false
    not_empty = ground arith

    cut :
        blob_chunks hash (b ∷ bs)
        ≡ record {
          hash = hash;
          bytes = take (min (0 + chunk_size) (length (b ∷ bs)) - 0) (drop 0 (b ∷ bs));
        }
          ∷ chunk_loop (length (b ∷ bs)) hash (b ∷ bs) (0 + chunk_size)
    cut =
        ap
          (λ t.
            chunk_loop (suc (length (b ∷ bs))) hash (b ∷ bs) 0
            ++ (if t then record { hash = hash; bytes = [] } ∷ [] else []))
          not_empty
        ∙ append-nil (chunk_loop (suc (length (b ∷ bs))) hash (b ∷ bs) 0)
        ∙ chunk_loop-some (length (b ∷ bs)) hash (b ∷ bs) 0 (omega arith)

module _ (h : Host) where
  receive-more :
      (c : BlobChunk) (ms : List (Option BlobChunk)) (end : Result (Unit {0})) (current : Text)
      (buf : Bytes) (count : ℕ)
      → c.hash ≡ []
      → receive h (some c ∷ ms) end current buf count
        ≡ receive h ms end current (buf ++ c.bytes) count
  unfolding receive
  receive-more c ms end current buf count more = ground (arith, eq_iff c.hash [])

  receive-new :
      (c : BlobChunk) (ms : List (Option BlobChunk)) (end : Result (Unit {0})) (current : Text)
      (buf : Bytes) (count : ℕ)
      → c.hash ≢ []
      → receive h (some c ∷ ms) end current buf count
        ≡ (flush h current buf count >>= λ count'. receive h ms end c.hash c.bytes count')
  unfolding receive
  receive-new c ms end current buf count new = rw (ne_false c.hash [] new, receive) refl

  receive-Follow :
      (cs : List BlobChunk) (ms : List (Option BlobChunk)) (end : Result (Unit {0}))
      (current : Text) (buf : Bytes) (count : ℕ)
      → Follow cs
      → receive h (map some cs ++ ms) end current buf count
        ≡ receive h ms end current (buf ++ joined cs) count
  receive-Follow [] ms end current buf count follow =
      ap (λ b. receive h ms end current b count) (sym (append-nil buf))
  receive-Follow (c ∷ cs) ms end current buf count follow =
      receive-more c (map some cs ++ ms) end current buf count follow.0
      ∙ receive-Follow cs ms end current (buf ++ c.bytes) count follow.1
      ∙ ap (λ b. receive h ms end current b count) (append_assoc buf c.bytes (joined cs))

  -- The chunks of a blob finish the one before, and leave the blob behind.
  pub receive-blob_chunks :
      (hash : Text) (bytes : Bytes) (ms : List (Option BlobChunk)) (end : Result (Unit {0}))
      (current : Text) (buf : Bytes) (count : ℕ)
      → hash ≢ []
      → receive h (map some (blob_chunks hash bytes) ++ ms) end current buf count
        ≡ (flush h current buf count >>= λ count'. receive h ms end hash bytes count')
  receive-blob_chunks hash bytes ms end current buf count named =
      let (c, cs, split, first, follow, whole) = blob_chunks-split hash bytes in
      ap (λ l. receive h (map some l ++ ms) end current buf count) split
      ∙ receive-new c (map some cs ++ ms) end current buf count (λ e. named (sym first ∙ e))
      ∙ ap (λ (k : ℕ → Exec (Repo h) ℕ). flush h current buf count >>= k)
          (fun_ext λ count'.
            receive-Follow cs ms end c.hash c.bytes count' follow
            ∙ ap (λ x. receive h ms end x (c.bytes ++ joined cs) count') first
            ∙ ap (λ b. receive h ms end hash b count') whole)

-- The messages of a stream of blobs
unfoldable pub messages : List (Text × Bytes) → List (Option BlobChunk)
messages [] = []
messages ((hash, bytes) ∷ blobs) = map some (blob_chunks hash bytes) ++ messages blobs

module _ (h : Host) where
  -- One blob after another to the store, until one fails
  unfoldable pub write_all : List (Text × Bytes) → Exec (Repo h) (Unit {0})
  write_all blobs = for_each blobs λ b. write_and_verify h b.0 b.1

  flush-named :
      (current : Text) (buf : Bytes) (count : ℕ)
      → current ≢ []
      → flush h current buf count ≡ (write_and_verify h current buf >> pure ((count + 1) % 2 ^ 32))
  unfolding flush
  flush-named current buf count named = rw (ne_false current [] named) refl

  counted : (count n : ℕ) → ((count + 1) % 2 ^ 32 + n) % 2 ^ 32 ≡ (count + suc n) % 2 ^ 32
  counted count n = omega arith

  write_all-cons :
      (hash : Text) (bytes : Bytes) (blobs : List (Text × Bytes)) (n : ℕ)
      → (write_all ((hash, bytes) ∷ blobs) >> pure n)
        ≡ (write_and_verify h hash bytes >> (write_all blobs >> pure n))
  unfolding write_all
  write_all-cons hash bytes blobs n =
      for_each-cons (λ b. write_and_verify h b.0 b.1) (hash, bytes) blobs (pure n)

  receive-messages_behind :
      (blobs : List (Text × Bytes)) (current : Text) (buf : Bytes) (count : ℕ)
      → current ≢ []
      → All (λ b. b.0 ≢ []) blobs
      → receive h (messages blobs) (ok tt) current buf count ≡ (
          write_and_verify h current buf
          >> (write_all blobs >> pure ((count + suc (length blobs)) % 2 ^ 32)))
  unfolding receive messages write_all for_each
  receive-messages_behind [] current buf count begun named = flush-named current buf count begun
  receive-messages_behind ((hash, bytes) ∷ blobs) current buf count begun named =
      receive-blob_chunks h hash bytes (messages blobs) (ok tt) current buf count named.0
      ∙ ap (λ (k : Exec (Repo h) ℕ). k >>= next) (flush-named current buf count begun)
      ∙ bind_assoc (write_and_verify h current buf) (λ _. pure ((count + 1) % 2 ^ 32)) next
      ∙ ap (λ (k : Exec (Repo h) ℕ). write_and_verify h current buf >> k)
          (receive-messages_behind blobs hash bytes ((count + 1) % 2 ^ 32) named.0 named.1
            ∙ sym (
                write_all-cons hash bytes blobs
                  (((count + 1) % 2 ^ 32 + suc (length blobs)) % 2 ^ 32))
            ∙ ap (λ n. write_all ((hash, bytes) ∷ blobs) >> pure n)
                (counted count (suc (length blobs))))
    where
      next : ℕ → Exec (Repo h) ℕ
      next count' = receive h (messages blobs) (ok tt) hash bytes count'

  -- The blobs of a stream, cut into chunks of 64 KiB and received again, are written and compared
  -- with their hashes one by one, in the order of the stream and until one fails; the number that
  -- is returned is theirs, modulo 2^32. It takes that no hash is empty.
  pub receive-messages :
      (blobs : List (Text × Bytes))
      → All (λ b. b.0 ≢ []) blobs
      → receive h (messages blobs) (ok tt) [] [] 0
        ≡ (write_all blobs >> pure (length blobs % 2 ^ 32))
  unfolding receive messages write_all for_each flush ◌==◌
  receive-messages [] named = refl
  receive-messages ((hash, bytes) ∷ blobs) named =
      receive-blob_chunks h hash bytes (messages blobs) (ok tt) [] [] 0 named.0
      ∙ receive-messages_behind blobs hash bytes 0 named.0 named.1
      ∙ sym (write_all-cons hash bytes blobs ((0 + suc (length blobs)) % 2 ^ 32))
      ∙ ap (λ n. write_all ((hash, bytes) ∷ blobs) >> pure (n % 2 ^ 32)) all_of_them
    where
      all_of_them : 0 + suc (length blobs) ≡ suc (length blobs)
      all_of_them = omega arith
