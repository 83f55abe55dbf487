-- ===== src/Sync.antt =====
-- The synchronisation of two repositories: server/server.go, server/convert.go, client/client.go.
pub mod Proto
pub mod Convert
pub mod Chunks
pub mod Server
pub mod Client
