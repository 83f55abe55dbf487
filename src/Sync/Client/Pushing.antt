-- ===== src/Sync/Client/Pushing.antt =====
-- `doPush` over a connection that loses nothing, against a push without messages: the manifests are
-- compared, the blobs read and written whole, and the manifest put in place.
use sgard.Base.{
  ℕ, false, ◌≡◌, ◌≢◌, ◌%◌, ◌^◌, ◌∙◌, refl, sym, ap, Bool-cases, inl, inr, some, none, List, [], ◌∷◌,
  ◌++◌, map, Text, Bytes, Result, ok, err, and_then, Exec, pure, for_each, continue, lift,
  if◌then◌else◌, ltb, length, server_newer, ◌>>=◌, ◌>>◌, All, ◌&&◌, not, eqb, eq_iff, arith,
}
use mathlib.Core.List.{append_assoc, append-nil, map-append}
use sgard.Manifest.{Manifest, Entry}
use sgard.Store
use sgard.Host.{Host}
use sgard.Garden.{Repo, files, replace_manifest}
use sgard.Garden.Maintain.{has_blob}
use sgard.Sync.Proto.{Times, BlobChunk, accepted}
use sgard.Sync.Convert.RoundTrip.{IsPortable, proto_to_manifest-manifest_to_proto}
use sgard.Sync.Chunks.{blob_chunks, receive}
use sgard.Sync.Chunks.Reassembly.{messages, write_all, receive-messages}
use sgard.Sync.Server.{Server, push_manifest, push_blobs, apply_pending, missing_blobs}
use sgard.Sync.Client.{send_blobs, push_decided, do_push}
use sgard.Sync.Client.Local.{Connection, local}

-- The chunks of the blobs, one blob behind the other
abbrev pub chunks_of : List (Text × Bytes) → List BlobChunk
chunks_of [] = []
chunks_of ((hash, bytes) ∷ blobs) = blob_chunks hash bytes ++ chunks_of blobs

pub messages-chunks_of : (blobs : List (Text × Bytes)) → map some (chunks_of blobs) ≡ messages blobs
unfolding messages
messages-chunks_of [] = refl
messages-chunks_of ((hash, bytes) ∷ blobs) =
    map-append some (blob_chunks hash bytes) (chunks_of blobs)
    ∙ ap (λ ms. map some (blob_chunks hash bytes) ++ ms) (messages-chunks_of blobs)

module _ (h : Host) where
  -- All the blobs, or the error of the first that cannot be read
  unfoldable pub read_all : Repo h → List Text → Result (List (Text × Bytes))
  read_all g [] = ok []
  read_all g (hash ∷ hashes) =
      and_then (Store.read h g.garden.root hash g.disk)
        λ bytes. and_then (read_all g hashes) λ blobs. ok ((hash, bytes) ∷ blobs)

  -- The blobs to the store of the server, and then the manifest, with the number of the blobs
  unfoldable pub deliver : Manifest → List (Text × Bytes) → Server h → Result ℕ × Server h
  deliver m blobs s =
      let (r, repo) = write_all h blobs s.repo in
      elim r [
        | err x ↦ (err x, record { repo = repo; pending = some m })
        | ok _ ↦
            let (r', repo') = replace_manifest h m repo in
            elim r' [
              | err x ↦ (err x, record { repo = repo'; pending = some m })
              | ok _ ↦ (ok (length blobs % 2 ^ 32), record { repo = repo'; pending = none })
            ]
      ]

  -- A push without messages
  unfoldable pub push_whole : Repo h → Server h → Result ℕ × Server h
  push_whole g s =
      let server = s.repo.garden.manifest in
      let client = g.garden.manifest in
      let missing = missing_blobs h s.repo.garden.root s.repo.disk client.files in
      if ltb server.updated client.updated
      then elim (read_all g missing) [
        | err x ↦ (err x, record s { pending = some client })
        | ok blobs ↦ deliver client blobs s
      ]
      else if ltb client.updated server.updated
      then (err server_newer, s)
      else (ok 0, s)

  pub missing_blobs-named :
      (root : Text) (s : h.State) (es : List Entry)
      → All (λ hash. hash ≢ []) (missing_blobs h root s es)
  unfolding missing_blobs
  missing_blobs-named root s [] = tt
  missing_blobs-named root s (e ∷ es) =
      elim (Bool-cases (has_blob e && not (Store.exists h root e.hash s))) [
        | inl wanted ↦ rw wanted (
          (λ same. ground (arith, wanted, (eq_iff e.hash []).1 same)),
          missing_blobs-named root s es,
        )
        | inr unwanted ↦ rw unwanted (missing_blobs-named root s es)
      ]

  module _ (times : Times) where
    for_each-send :
        (cs : List BlobChunk) (s : Server h) (sent : List BlobChunk)
        → for_each cs (local h times).send (s, sent) ≡ (ok tt, (s, sent ++ cs))
    unfolding for_each
    for_each-send [] s sent = ap (λ l. (ok tt, (s, l))) (sym (append-nil sent))
    for_each-send (c ∷ cs) s sent =
        for_each-send cs s (sent ++ (c ∷ []))
        ∙ ap (λ l. (ok tt, (s, l))) (append_assoc sent (c ∷ []) cs)

    -- What sending comes to: an error leaves the server alone.
    unfoldable Sends :
        Result (List (Text × Bytes))
        → Server h
        → List BlobChunk
        → Result (Unit {0}) × Connection h
        → Type 0
    Sends (ok blobs) s sent out = out ≡ (ok tt, (s, sent ++ chunks_of blobs))
    Sends (err x) s sent out = (sent' : List BlobChunk) × (out ≡ (err x, (s, sent')))

    send_step : Repo h → Text → Exec (Connection h) (Unit {0})
    send_step g hash = lift (Store.read h g.garden.root hash g.disk) >>= λ bytes.
        for_each (blob_chunks hash bytes) (local h times).send

    looped :
        Repo h → List Text → Result (Unit {0}) × Connection h → Result (Unit {0}) × Connection h
    looped g hashes out = elim out.0 [
      | ok _ ↦ for_each hashes (send_step g) out.1
      | err x ↦ (err x, out.1)
    ]

    Sends-behind :
        (g : Repo h) (hash : Text) (bytes : Bytes) (hashes : List Text) (s : Server h)
        (sent : List BlobChunk) (rest : Result (List (Text × Bytes)))
        → Sends rest s
            (sent ++ blob_chunks hash bytes)
            (for_each hashes (send_step g) (s, sent ++ blob_chunks hash bytes))
        → Sends
            (and_then rest (λ blobs. ok ((hash, bytes) ∷ blobs)))
            s
            sent
            (for_each hashes (send_step g) (s, sent ++ blob_chunks hash bytes))
    unfolding Sends
    Sends-behind g hash bytes hashes s sent (ok blobs) e =
        e ∙ ap (λ l. (ok tt, (s, l))) (append_assoc sent (blob_chunks hash bytes) (chunks_of blobs))
    Sends-behind g hash bytes hashes s sent (err x) e = e

    Sends-first :
        (g : Repo h) (hash : Text) (hashes : List Text) (s : Server h) (sent : List BlobChunk)
        (r : Result Bytes)
        → ((bytes : Bytes)
            → Sends
                (read_all g hashes)
                s
                (sent ++ blob_chunks hash bytes)
                (for_each hashes (send_step g) (s, sent ++ blob_chunks hash bytes)))
        → Sends
            (and_then r
              (λ bytes. and_then (read_all g hashes) (λ blobs. ok ((hash, bytes) ∷ blobs))))
            s
            sent
            (looped g hashes (
              continue r
                (λ bytes. for_each (blob_chunks hash bytes) (local h times).send)
                (s, sent)))
    unfolding Sends looped
    Sends-first g hash hashes s sent (ok bytes) ih =
        rw (for_each-send (blob_chunks hash bytes) s sent)
          (Sends-behind g hash bytes hashes s sent (read_all g hashes) (ih bytes))
    Sends-first g hash hashes s sent (err x) ih = (sent, refl)

    send_blobs-Sends :
        (g : Repo h) (hashes : List Text) (s : Server h) (sent : List BlobChunk)
        → Sends (read_all g hashes) s sent (send_blobs h times (local h times) g hashes (s, sent))
    unfolding Sends read_all send_blobs for_each send_step looped
    send_blobs-Sends g [] s sent = ap (λ l. (ok tt, (s, l))) (sym (append-nil sent))
    send_blobs-Sends g (hash ∷ hashes) s sent =
        Sends-first g hash hashes s sent (Store.read h g.garden.root hash g.disk)
          (λ bytes. send_blobs-Sends g hashes s (sent ++ blob_chunks hash bytes))

  module _ (m : Manifest) (blobs : List (Text × Bytes)) where
    applied : ℕ → Result (Unit {0}) × Repo h → Result ℕ × Server h
    applied count out = elim out.0 [
      | err x ↦ (err x, record { repo = out.1; pending = some m })
      | ok _ ↦ (ok count, record { repo = out.1; pending = none })
    ]

    received : Result ℕ × Repo h → Result ℕ × Server h
    received all = elim all.0 [
      | err x ↦ (err x, record { repo = all.1; pending = some m })
      | ok count ↦ apply_pending h count (record { repo = all.1; pending = some m })
    ]

    received_out :
        (out : Result (Unit {0}) × Repo h)
        → received (continue out.0 (λ _. pure (length blobs % 2 ^ 32)) out.1) ≡ (
            let t : Result ℕ × Server h = elim out.0 [
              | err x ↦ (err x, record { repo = out.1; pending = some m })
              | ok _ ↦ applied (length blobs % 2 ^ 32) (replace_manifest h m out.1)
            ] in
            t)
    unfolding apply_pending applied received
    received_out (ok _, repo) = refl
    received_out (err x, repo) = refl

    push_blobs-chunks_of :
        (s : Server h)
        → All (λ b. b.0 ≢ []) blobs
        → push_blobs h (map some (chunks_of blobs)) (ok tt) (record s { pending = some m })
          ≡ deliver m blobs s
    unfolding push_blobs deliver applied received
    push_blobs-chunks_of s named =
        ap received (
          ap (λ ms. receive h ms (ok tt) [] [] 0 s.repo) (messages-chunks_of blobs)
          ∙ ap (λ (f : Exec (Repo h) ℕ). f s.repo) (receive-messages h blobs named))
        ∙ received_out (write_all h blobs s.repo)

  -- What has been read has the names that were asked for.
  abbrev pub Named : Result (List (Text × Bytes)) → Type 0
  Named (ok blobs) = All (λ b. b.0 ≢ []) blobs
  Named (err x) = Unit

  Named-behind :
      (hash : Text) (r : Result Bytes) (rest : Result (List (Text × Bytes)))
      → hash ≢ []
      → Named rest
      → Named (and_then r (λ bytes. and_then rest (λ blobs. ok ((hash, bytes) ∷ blobs))))
  Named-behind hash (ok bytes) (ok blobs) named rest = (named, rest)
  Named-behind hash (ok bytes) (err x) named rest = tt
  Named-behind hash (err x) rest named rests = tt

  pub read_all-Named :
      (g : Repo h) (hashes : List Text) → All (λ hash. hash ≢ []) hashes → Named (read_all g hashes)
  unfolding read_all
  read_all-Named g [] named = tt
  read_all-Named g (hash ∷ hashes) named =
      Named-behind hash (Store.read h g.garden.root hash g.disk) (read_all g hashes) named.0
        (read_all-Named g hashes named.1)

  module _ (times : Times) (g : Repo h) where
    -- What is seen of a push: its result, and the server behind it
    abbrev pub outcome : Result ℕ × Connection h → Result ℕ × Server h
    outcome (r, (s, sent)) = (r, s)

    closed :
        (m : Manifest) (s : Server h) (blobs : Result (List (Text × Bytes)))
        (out : Result (Unit {0}) × Connection h)
        → Named blobs
        → Sends times blobs (record s { pending = some m }) [] out
        → outcome (continue out.0 (λ _. (local h times).close_and_recv) out.1) ≡ (
            let t : Result ℕ × Server h = elim blobs [
              | err x ↦ (err x, record s { pending = some m })
              | ok bs ↦ deliver m bs s
            ] in
            t)
    unfolding Sends
    closed m s (ok blobs) out named sends = rw sends (push_blobs-chunks_of m blobs s named)
    closed m s (err x) out named sends = rw (sends.1) refl

    -- Without blobs the number of the server is not looked at.
    uncounted :
        (m : Manifest) (out : Result (Unit {0}) × Repo h)
        → (let s' : Result ℕ × Server h = applied m [] 0 out in
            outcome (continue s'.0 (λ _. pure 0) (s'.1, [])))
          ≡ applied m [] 0 out
    unfolding applied
    uncounted m (ok _, repo) = refl
    uncounted m (err x, repo) = refl

    push_none :
        (m : Manifest) (s : Server h) (sent : List BlobChunk)
        → outcome (
            ((local h times).push_blobs >> (local h times).close_and_recv >> pure 0)
              (record s { pending = some m }, sent))
          ≡ deliver m [] s
    unfolding deliver write_all for_each applied
    push_none m s sent =
        ap (λ (out : Result ℕ × Server h). outcome (continue out.0 (λ _. pure 0) (out.1, [])))
          (push_blobs-chunks_of m [] s tt)
        ∙ uncounted m (replace_manifest h m s.repo)

    push_accepted :
        (m : Manifest) (s : Server h) (sent : List BlobChunk) (missing : List Text)
        (stamp : times.Stamp)
        → All (λ hash. hash ≢ []) missing
        → outcome (
            push_decided h times
              (local h times)
              g
              (record { decision = accepted; missing_blobs = missing; server_updated = stamp })
              (record s { pending = some m }, sent))
          ≡ (let t : Result ℕ × Server h = elim (read_all g missing) [
            | err x ↦ (err x, record s { pending = some m })
            | ok bs ↦ deliver m bs s
          ] in
              t)
    unfolding push_decided read_all
    push_accepted m s sent [] stamp named = push_none m s sent
    push_accepted m s sent (hash ∷ hashes) stamp named = rw some_missing (
        closed m s (read_all g (hash ∷ hashes))
          (send_blobs h times (local h times) g (hash ∷ hashes) (record s { pending = some m }, []))
          (read_all-Named g (hash ∷ hashes) named)
          (send_blobs-Sends times g (hash ∷ hashes) (record s { pending = some m }) []))
      where
        some_missing : eqb (length (hash ∷ hashes)) 0 ≡ false
        some_missing = ground arith

    -- Over a connection that loses nothing, where a timestamp keeps the time that it is made of, and
    -- for a manifest whose version and cost parameters fit an int32: a push by messages and chunks
    -- has the result of the push without them, and leaves the server the same, as long as no chunk is
    -- in flight.
    pub do_push_over :
        (s : Server h) (sent : List BlobChunk)
        → IsPortable g.garden.manifest
        → ((t : ℕ) → times.as_time (times.stamp t) ≡ t)
        → outcome (do_push h times (local h times) g (s, sent)) ≡ push_whole g s
    unfolding do_push push_whole push_manifest push_decided
    do_push_over s sent fits back =
        let here : ℕ = s.repo.garden.manifest.updated in
        let there : ℕ = g.garden.manifest.updated in
        elim (Bool-cases (ltb here there)) [
          | inl newer ↦
              rw (proto_to_manifest-manifest_to_proto times back g.garden.manifest fits, newer)
                (push_accepted g.garden.manifest s sent
                  (missing_blobs h s.repo.garden.root s.repo.disk (files g)) (times.stamp here)
                  (missing_blobs-named s.repo.garden.root s.repo.disk (files g)))
          | inr older ↦ elim (Bool-cases (ltb there here)) [
            | inl behind ↦
                rw
                  (
                    proto_to_manifest-manifest_to_proto times back g.garden.manifest fits,
                    older,
                    behind,
                  )
                  refl
            | inr equal ↦
                rw
                  (
                    proto_to_manifest-manifest_to_proto times back g.garden.manifest fits,
                    older,
                    equal,
                  )
                  refl
          ]
        ]
