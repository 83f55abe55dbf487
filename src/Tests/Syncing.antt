-- ===== src/Tests/Syncing.antt =====
-- Pushes and pulls between two repositories in memory.
use sgard.Base.{
  ℕ, ◌≡◌, ◌≢◌, ◌≤◌, refl, sym, Bool, true, false, Option, none, some, List, [], ◌∷◌, Text, Bytes,
  codes, arith, Result, ok, err, Error, io, inl, ltb, pure, ◌>>◌, length, ◌%◌, ◌^◌, and_then, ◌&&◌,
  not, eqb,
}
use sgard.Paths.Clean.{render}
use sgard.Manifest.{Manifest}
use sgard.Memory.{Files, memory}
use sgard.Memory.Laws.{memory-DiskLaws}
use sgard.Store
use sgard.Garden.{Repo, new_garden, files}
use sgard.Sync.Proto.{Times}
use sgard.Sync.Convert.{manifest_to_proto, proto_to_manifest}
use sgard.Sync.Convert.RoundTrip.{IsPortable, proto_to_manifest-manifest_to_proto}
use sgard.Sync.Chunks.{receive}
use sgard.Sync.Chunks.Reassembly.{messages, write_all, receive-messages}
use sgard.Sync.Server
use sgard.Sync.Server.{Server, missing_blobs}
use sgard.Sync.Server.Progress.{
  updated, start, later, manifest_pushed, blobs_pushed, updated-monotone,
}
use sgard.Sync.Server.Breaking.{push_blobs_broken}
use sgard.Sync.Client.{do_push, do_pull, Both}
use sgard.Sync.Client.Local.{Connection, local, given_up}
use sgard.Sync.Client.Pushing.{read_all, push_whole, outcome}
use sgard.Sync.Client.Refining.{do_push-push_whole}
use sgard.Sync.Client.Filling.{HoldsBlobs}
use sgard.Sync.Client.Complete.{do_push_complete, do_push_settled}
use sgard.Sync.Client.Pulling.{do_pull_complete}
use sgard.Tests.Data.{place, rooted, hello, disk, entry, repo, manifest_of}
use sgard.Tests.Blobs.{hash, wrote}

abbrev clock : Times
clock = record { Stamp = ℕ; stamp = λ t. t; as_time = λ t. t }

back : (t : ℕ) → clock.as_time (clock.stamp t) ≡ t
back t = refl

-- A repository that tracks the file, updated at 8
abbrev newer : Manifest
newer = record (manifest_of (entry (codes "~/.bashrc") hash ∷ [])) { updated = 8 }

abbrev full : Repo memory
full = record { garden = new_garden newer (codes "/r"); disk = wrote }

newer-IsPortable : IsPortable newer
unfolding sgard.Manifest.new_with_time
newer-IsPortable = record { version = inl (omega arith); slots = tt }

proto_to_manifest-manifest_to_proto_example :
    proto_to_manifest clock (manifest_to_proto clock newer) ≡ newer
proto_to_manifest-manifest_to_proto_example =
    proto_to_manifest-manifest_to_proto clock back newer newer-IsPortable

-- A server that tracks nothing, updated at 7
abbrev empty : Server memory
empty = record { repo = repo [] disk; pending = none }

abbrev pushed : Result ℕ × Connection memory
pushed = do_push memory clock (local memory clock) full (empty, [])

abbrev missing : List Text
missing = missing_blobs memory (codes "/r") empty.repo.disk (files full)

do_push-push_whole_example :
    ((blobs : List (Text × Bytes))
      → read_all memory full missing ≡ ok blobs
      → outcome memory clock full pushed ≡ push_whole memory full empty)
    × ((x : Error)
        → ltb 7 8 ≡ true
        → read_all memory full missing ≡ err x
        → (pushed.0 ≡ err x)
          × ((k : ℕ) (y : Error)
              → ((given_up memory k y pushed.1).repo.garden ≡ empty.repo.garden)
                × ((given_up memory k y pushed.1).pending ≡ some newer)))
unfolding sgard.Manifest.new_with_time
do_push-push_whole_example = do_push-push_whole memory clock full empty [] newer-IsPortable back

push_run : pushed ≡ (ok 1, pushed.1)
unfolding do_push sgard.Sync.Client.push_decided Server.push_manifest sgard.Manifest.new_with_time
    proto_to_manifest manifest_to_proto missing_blobs sgard.Base.◌==◌ Store.hash_of Store.hex
    Store.exists Store.valid_hash sgard.Memory.checksum sgard.Memory.lookup Store.blob_path
    sgard.Paths.join_all sgard.Paths.clean sgard.Base.for_each sgard.Paths.intercalate
    sgard.Paths.is_abs sgard.Paths.split Store.all_hex Store.is_hex_char Store.read
    sgard.Sync.Chunks.blob_chunks sgard.Sync.Chunks.chunk_loop sgard.Sync.Client.send_blobs
    sgard.Sync.Convert.encryption_to_proto sgard.Sync.Convert.entry_to_proto
    sgard.Sync.Convert.proto_to_encryption sgard.Sync.Convert.proto_to_entry
    sgard.Sync.Convert.proto_to_slot sgard.Sync.Convert.slot_to_proto Server.push_blobs receive
    sgard.Sync.Chunks.flush sgard.Sync.Chunks.write_and_verify Server.apply_pending Store.write
    sgard.Garden.replace_manifest sgard.Manifest.Disk.save sgard.Host.Atomic.write_atomically
    sgard.Host.Atomic.move_into sgard.Host.Atomic.or_remove sgard.Host.Atomic.undone
    sgard.Memory.insert sgard.Memory.erase sgard.Memory.stem sgard.Paths.dir sgard.Paths.base
    sgard.Paths.join
push_run = refl

do_push_complete_example :
    (pushed.1.0.repo.garden.manifest ≡ newer)
    × (pushed.1.0.pending ≡ none)
    × HoldsBlobs memory (render (place ∷ [])) pushed.1.0.repo.disk (files full)
unfolding sgard.Manifest.new_with_time
do_push_complete_example =
    do_push_complete memory memory-DiskLaws place [] rooted clock full empty pushed.1.0 []
      pushed.1.1 1 back newer-IsPortable (refl, refl) refl push_run

abbrev behind : Repo memory
behind = repo [] disk

abbrev ahead : Server memory
ahead = record { repo = full; pending = none }

abbrev pulled : Result ℕ × Both memory clock (local memory clock)
pulled = do_pull memory clock (local memory clock) (behind, (ahead, []))

pull_run : pulled ≡ (ok 1, pulled.1)
unfolding do_pull sgard.Sync.Client.pull_newer sgard.Sync.Client.pull_missing
    sgard.Sync.Client.put_in_place Server.pull_manifest Server.pull_blobs
    sgard.Manifest.new_with_time proto_to_manifest manifest_to_proto missing_blobs sgard.Base.◌==◌
    Store.hash_of Store.hex Store.exists Store.valid_hash sgard.Memory.checksum sgard.Memory.lookup
    Store.blob_path sgard.Paths.join_all sgard.Paths.clean sgard.Paths.intercalate
    sgard.Paths.is_abs sgard.Paths.split Store.all_hex Store.is_hex_char Store.read
    sgard.Sync.Chunks.blob_chunks sgard.Sync.Chunks.chunk_loop
    sgard.Sync.Convert.encryption_to_proto sgard.Sync.Convert.entry_to_proto
    sgard.Sync.Convert.proto_to_encryption sgard.Sync.Convert.proto_to_entry
    sgard.Sync.Convert.proto_to_slot sgard.Sync.Convert.slot_to_proto receive
    sgard.Sync.Chunks.flush sgard.Sync.Chunks.write_and_verify Store.write
    sgard.Garden.replace_manifest sgard.Manifest.Disk.save sgard.Host.Atomic.write_atomically
    sgard.Host.Atomic.move_into sgard.Host.Atomic.or_remove sgard.Host.Atomic.undone
    sgard.Memory.insert sgard.Memory.erase sgard.Memory.stem sgard.Paths.dir sgard.Paths.base
    sgard.Paths.join
pull_run = refl

do_pull_complete_example :
    (pulled.1.0.garden.manifest ≡ newer)
    × (pulled.1.1.0 ≡ ahead)
    × HoldsBlobs memory (render (place ∷ [])) pulled.1.0.disk (files full)
unfolding sgard.Manifest.new_with_time
do_pull_complete_example =
    do_pull_complete memory clock memory-DiskLaws place [] rooted behind pulled.1.0 ahead
      pulled.1.1.0 [] pulled.1.1.1 1 back newer-IsPortable (refl, refl) refl pull_run

hash-named : hash ≢ []
unfolding Store.hash_of Store.hex
hash-named e = cc e

receive-messages_example :
    receive memory (messages ((hash, hello) ∷ [])) (ok tt) [] [] 0
    ≡ (write_all memory ((hash, hello) ∷ []) >> pure 1)
receive-messages_example = receive-messages memory ((hash, hello) ∷ []) (hash-named, tt)

abbrev announced : Server memory
announced = (Server.push_manifest memory clock (manifest_to_proto clock newer) empty).1

updated-monotone_example :
    updated announced ≤ updated (Server.push_blobs memory [] (ok tt) announced).1
unfolding Server.new
updated-monotone_example =
    updated-monotone memory clock behind announced (Server.push_blobs memory [] (ok tt) announced).1
      (later start (manifest_pushed (manifest_to_proto clock newer)))
      (later start (blobs_pushed [] (ok tt)))

do_push_settled_example :
    outcome memory clock full (do_push memory clock (local memory clock) full (pushed.1.0, []))
    ≡ (ok 0, pushed.1.0)
do_push_settled_example =
    do_push_settled memory clock full empty pushed.1.0 [] pushed.1.1 [] 1 back newer-IsPortable
      push_run

-- A stream that brings a blob and the beginning of the next one, and breaks off
abbrev breaking : Result ℕ × Server memory
breaking =
    Server.push_blobs memory (messages ((hash, hello) ∷ (codes "ab", hello) ∷ []))
      (err (io (codes "reset"))) announced

placed : announced.repo.garden.root ≡ render (place ∷ [])
unfolding Server.push_manifest sgard.Manifest.new_with_time proto_to_manifest manifest_to_proto
placed = refl

push_blobs_broken_example :
    (y : Error) × (breaking.0 ≡ err y)
    × (breaking.1.repo.garden ≡ announced.repo.garden)
    × (breaking.1.pending ≡ announced.pending)
    × ((j : Text)
        → Store.exists memory (render (place ∷ [])) j announced.repo.disk ≡ true
        → Store.exists memory (render (place ∷ [])) j breaking.1.repo.disk ≡ true)
push_blobs_broken_example =
    push_blobs_broken memory memory-DiskLaws place [] rooted
      (messages ((hash, hello) ∷ (codes "ab", hello) ∷ [])) (io (codes "reset")) announced placed
