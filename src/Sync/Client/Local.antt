-- ===== src/Sync/Client/Local.antt =====
-- The server of `Sync.Server` as a client meets it over a connection that loses nothing: the handlers,
-- called one after another, beside the chunks that an open stream has in flight. Here the handler of
-- the stream takes the chunks in flight when the client closes it. A handler that takes some of them
-- before does the same writes in the same order; where the client gives the stream up, `given_up` is
-- the server that has taken as many as it may. Where a write of the server fails, the client here
-- meets the server's error when it closes, and not the end of the stream (io.EOF) while it sends.
use sgard.Base.{ℕ, some, List, [], ◌∷◌, ◌++◌, map, take, ok, err, Error}
use sgard.Host.{Host}
use sgard.Sync.Proto.{Times, BlobChunk}
use sgard.Sync.Server
use sgard.Sync.Server.{Server, push_manifest, push_blobs, pull_manifest, pull_blobs}
use sgard.Sync.Client.{Remote}

abbrev pub Connection : Host → Type 0
Connection h = Server h × List BlobChunk

abbrev pub local : (h : Host) (times : Times) → Remote times
local h times = record {
  R = Connection h;
  push_manifest =
      λ m (s, sent). let (response, s') = push_manifest h times m s in (ok response, (s', sent));
  push_blobs = λ (s, sent). (ok tt, (s, []));
  send = λ chunk (s, sent). (ok tt, (s, sent ++ (chunk ∷ [])));
  close_and_recv =
      λ (s, sent). let (r, s') = push_blobs h (map some sent) (ok tt) s in (r, (s', []));
  pull_manifest = λ (s, sent). (ok (pull_manifest h times s), (s, sent));
  pull_blobs = λ hashes (s, sent).
      let (chunks, end) = pull_blobs h hashes s in (ok (map some chunks, end), (s, sent));
  prune = λ (s, sent). let (r, s') = Server.prune h s in (r, (s', sent));
}

-- The server behind a stream that the client gave up, where the handler has taken the first `k` of the
-- chunks in flight before its stream broke off with the error
abbrev pub given_up : (h : Host) → ℕ → Error → Connection h → Server h
given_up h k x (s, sent) = (push_blobs h (map some (take k sent)) (err x) s).1
