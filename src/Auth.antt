-- ===== src/Auth.antt =====
-- Authentication: server/auth.go and client/auth.go. A client signs a nonce and a time with its SSH key
-- and gets a token, which it sends with every call. SSH keys and JSON web tokens belong to libraries
-- and are parameters. A timestamp in seconds is the 64 bits of an int64, as a number.
pub mod Wire
pub mod Library
pub mod Gate
pub mod Login
pub mod Tokens
pub mod Agreement
pub mod Signers
