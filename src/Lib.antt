-- ===== src/Lib.antt =====
-- sgard: a verification library of the garden, its store, its synchronisation and its
-- authentication.
--
-- sgard tracks dotfiles. A repository is a directory with a manifest (manifest.yaml) and a store
-- of blobs that are named by their SHA-256. The methods of a Garden change the manifest, which
-- they save at their end, the store, and the files in the home directory.
--
-- Base: shared names, texts as lists of codes, results, and actions on a state, `Exec S A = S →
-- Result A × S`. An action that fails keeps what it changed before.
-- Paths: the functions of path/filepath that are used, and toTildePath and ExpandTildePath of
-- garden/garden.go. Paths.Clean and Paths.RoundTrip are about these.
-- Host: what the program calls and does not implement, as fields: the file system, the
-- environment, SHA-256, the random source, XChaCha20-Poly1305, YAML. Host.Walk is filepath.WalkDir
-- over the tree that it meets, Host.Atomic the write by a temporary file. Host.Laws names the
-- documented effects of the calls that some proofs rely on.
-- Manifest: manifest/manifest.go. Load and Save are in Manifest.Disk.
-- Store: store/store.go. Its proofs are in Store.Hash (validHash), Store.Places (paths of blobs),
-- Store.Laws and Store.Failures (the atomic write) and Store.Blobs (the operations).
-- Mode and Targeting: parseMode of garden/garden.go, and garden/targeting.go.
-- Garden: garden/garden.go and the files beside it. `Repo` is a Garden with the disk it works on.
-- Garden.Add is Add; Garden.Checkpoint, Garden.Status and Garden.Restore the methods of those
-- names; Garden.Edit garden/remove.go, lock.go, target.go and exclude.go; Garden.Maintain
-- prune.go, verify.go and list.go; Garden.Mirror mirror.go; Garden.Identity identity.go and
-- tags.go; Garden.Crypt, Garden.Slots and Garden.Rotate encrypt.go; Garden.Unlock UnlockDEK and
-- encrypt_fido2.go; Garden.Diff diff.go, and Garden.Info info.go. Garden.History makes the methods
-- that change a garden one type of operations, and Garden.Unique has the invariant that they keep.
-- Sync: the synchronisation. Sync.Proto has the messages of sgardpb/, Sync.Convert is
-- server/convert.go, Sync.Chunks the loops that cut blobs into chunks and put them together,
-- Sync.Server server/server.go and Sync.Client client/client.go. A handler of the server holds its
-- lock throughout and is one step. The connection of a client is a record of calls, any of which
-- may fail; Sync.Client.Local is the connection to the model of the server that loses nothing. Its
-- chunks are in flight until the stream closes, when the handler takes them; where a write of the
-- server fails, its error is what the client meets then, and not the end of the stream before.
-- Auth: server/auth.go and client/auth.go. Auth.Wire has what is signed, Auth.Library what SSH and
-- JWT do as fields, Auth.Gate the server, Auth.Tokens the token file, Auth.Login the client,
-- Auth.Signers the choice of a key, and Auth.Agreement that they fit.
-- Memory: a host in memory, on which the modules of Tests run the model.
--
-- Loops are recursion on the list that they run over and a walk is recursion on the tree, so there
-- is no fuel, but in two loops: that over the chunks of a blob has one round more than the blob
-- has bytes, and a round takes 65536 of them; that over the file of the authorized keys has as
-- many rounds as the file has bytes, a round takes one at least, and a loop that ran out of fuel
-- would return none. The time is an argument of a method, the reading of the clock at its start.
-- Errors are values without their texts; an error names the path or the hash that it is about. An
-- int32 and a 64-bit timestamp are their bits, as numbers.
--
-- Not modelled: SSHCredentials, which old tests use, and the driver of a FIDO2 device. The command
-- line parses flags and prints, and the encoding of the messages in sgardpb/ is generated. gRPC,
-- SSH, JWT, YAML and the cryptography are parameters.
pub mod Base
pub mod Memory
pub mod Paths
pub mod Manifest
pub mod Host
pub mod Store
pub mod Mode
pub mod Targeting
pub mod Garden
pub mod Tests
pub mod Sync
pub mod Auth
