-- ===== src/Sync/Chunks/Keeping.antt =====
-- What the writes of single blobs keep, the whole loop that receives them keeps.
use sgard.Base.{
  ◌+◌, ◌%◌, ◌^◌, ap, ◌∙◌, if◌then◌else◌, hash_mismatch, ℕ, ◌≡◌, Option, none, some, List, [], ◌∷◌,
  ◌++◌, Text, Bytes, ◌==◌, Bool-cases, inl, inr, Result, ok, err, pure, bind_keeps, refl, Error,
  >>=-eq-ok,
}
use sgard.Host.{Host}
use sgard.Sync.Proto.{BlobChunk}
use sgard.Sync.Chunks.{write_and_verify, flush, receive}
use sgard.Garden.{Repo}
use sgard.Store

module _ {h : Host} (P : Repo h → Type 0)
    (keep : (hash : Text) (bytes : Bytes) (s : Repo h)
      → P s
      → P (write_and_verify h hash bytes s).1) where
  flush_keeps :
      (current : Text) (buf : Bytes) (count : ℕ) (s : Repo h)
      → P s
      → P (flush h current buf count s).1
  unfolding flush
  flush_keeps current buf count s p = elim (Bool-cases (current == [])) [
    | inl unnamed ↦ rw unnamed p
    | inr named ↦ rw named (
        bind_keeps P (write_and_verify h current buf) (λ _. pure ((count + 1) % 2 ^ 32)) s
          (keep current buf s p) (λ _ t q. q))
  ]

  pub receive_keeps :
      (ms : List (Option BlobChunk)) (end : Result (Unit {0})) (current : Text) (buf : Bytes)
      (count : ℕ) (s : Repo h)
      → P s
      → P (receive h ms end current buf count s).1
  unfolding receive
  receive_keeps [] (err x) current buf count s p = p
  receive_keeps [] (ok _) current buf count s p = flush_keeps current buf count s p
  receive_keeps (none ∷ ms) end current buf count s p = receive_keeps ms end current buf count s p
  receive_keeps (some chunk ∷ ms) end current buf count s p = elim (Bool-cases (chunk.hash == [])) [
    | inl more ↦ rw (more, receive) (receive_keeps ms end current (buf ++ chunk.bytes) count s p)
    | inr new ↦
        rw (new, receive)
          (bind_keeps P (flush h current buf count)
            (λ count'. receive h ms end chunk.hash chunk.bytes count') s
            (flush_keeps current buf count s p)
            (λ count' t q. receive_keeps ms end chunk.hash chunk.bytes count' t q))
  ]

module _ (h : Host) where
  write_and_verify_out :
      (s : Repo h) (expected : Text) (out : Result Text × h.State)
      → (elim out.0 as (λ _. Result (Unit {0}) × Repo h) [
        | err x ↦ (err x, record s { disk = out.1 })
        | ok got ↦
            if got == expected
            then (ok tt, record s { disk = out.1 })
            else (err (hash_mismatch expected), record s { disk = out.1 })
      ]).1
        ≡ record s { disk = out.1 }
  write_and_verify_out s expected (err x, d) = refl
  write_and_verify_out s expected (ok got, d) = elim (Bool-cases (got == expected)) [
    | inl same ↦ rw same refl
    | inr differs ↦ rw differs refl
  ]

  -- The write of a blob changes the disk alone, by what the store writes.
  pub write_and_verify-disk :
      (expected : Text) (bytes : Bytes) (s : Repo h)
      → (write_and_verify h expected bytes s).1
        ≡ record s { disk = (Store.write h s.garden.root bytes s.disk).1 }
  unfolding write_and_verify
  write_and_verify-disk expected bytes s =
      write_and_verify_out s expected (Store.write h s.garden.root bytes s.disk)

  pub receive-garden :
      (ms : List (Option BlobChunk)) (end : Result (Unit {0})) (s : Repo h)
      → (receive h ms end [] [] 0 s).1.garden ≡ s.garden
  receive-garden ms end s =
      receive_keeps (λ t. t.garden ≡ s.garden)
        (λ hash bytes t same.
          ap (λ (r : Repo h). r.garden) (write_and_verify-disk hash bytes t) ∙ same)
        ms end [] [] 0 s refl

  -- A stream that breaks off is not taken for a stream that ends.
  pub receive-err :
      (ms : List (Option BlobChunk)) (x : Error) (current : Text) (buf : Bytes) (count n : ℕ)
      (s s' : Repo h)
      → receive h ms (err x) current buf count s ≡ (ok n, s')
      → ⊥
  unfolding receive
  receive-err [] x current buf count n s s' e = cc (ap (λ p. p.0) e)
  receive-err (none ∷ ms) x current buf count n s s' e = receive-err ms x current buf count n s s' e
  receive-err (some chunk ∷ ms) x current buf count n s s' e =
      elim (Bool-cases (chunk.hash == [])) [
        | inl more ↦
            receive-err ms x current (buf ++ chunk.bytes) count n s s' (rw (more, receive) at e)
        | inr new ↦
            let (count', u, _, rest) =
              >>=-eq-ok (flush h current buf count)
                (λ count'. receive h ms (err x) chunk.hash chunk.bytes count') s n s'
                (rw (new, receive) at e) in
            receive-err ms x chunk.hash chunk.bytes count' n u s' rest
      ]
