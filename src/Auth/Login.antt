-- ===== src/Auth/Login.antt =====
-- client/auth.go and client/client.go: how a client gets its token, with the signer and the call of the
-- server as parameters.
use sgard.Base.{ℕ, Option, none, some, [], ◌∷◌, Text, Bytes, ok, err, Exec, pure, ◌>>=◌}
use sgard.Host.{Host}
use sgard.Auth.Wire.{Signature, build_payload}
use sgard.Auth.Library.{Library}
use sgard.Auth.Gate.{Challenge, Request, unix_seconds}
use sgard.Auth.Tokens.{save_token, request_metadata}

-- ssh.Signer
pub record Signer (library : Library) (h : Host) : Type 0 where
  pub public_key : library.Key
  pub sign : Bytes → Exec h.State Signature

module _ (library : Library) (h : Host) (signer : Signer library h) where
  -- The nonce and the time that are signed: those of the challenge, or new ones
  unfoldable pub challenge_or_new : Option Challenge → ℕ → Exec h.State Challenge
  challenge_or_new (some challenge) now = pure challenge
  challenge_or_new none now = do
    nonce ← h.rand 32
    pure (record { nonce = nonce; timestamp = unix_seconds now })

  unfoldable pub sign_challenge : Challenge → Exec h.State Request
  sign_challenge challenge = do
    signature ← signer.sign (build_payload challenge.nonce challenge.timestamp)
    pure (record {
      nonce = challenge.nonce;
      timestamp = challenge.timestamp;
      signature = library.marshal_signature signature;
      public_key = library.marshal_authorized_key signer.public_key;
    })

  -- `Authenticate`, up to the call of the server
  unfoldable pub make_request : Option Challenge → ℕ → Exec h.State Request
  make_request challenge now = challenge_or_new challenge now >>= sign_challenge

  -- A client with the token in its credentials, its disk, and what is behind the connection
  pub record Session (R : Type 0) : Type 0 where
    pub token : Text
    pub disk : h.State
    pub remote : R

  module _ {R : Type 0} (state_home : Text) (call : Request → Exec R Text) (now : ℕ) where
    -- `Authenticate`
    unfoldable pub authenticate : Option Challenge → Exec (Session R) Text
    authenticate challenge s =
        let (made, d) = make_request challenge now s.disk in
        elim made [
          | err x ↦ (err x, record s { disk = d })
          | ok request ↦
              let (answer, r) = call request s.remote in (answer, record s { disk = d; remote = r })
        ]

    -- `authenticate` of client/client.go: an error of `SaveToken` is dropped.
    unfoldable pub renew : Option Challenge → Exec (Session R) (Unit {0})
    renew challenge s =
        let (got, t) = authenticate challenge s in
        elim got [
          | err x ↦ (err x, t)
          | ok token ↦
              (ok tt, record t { token = token; disk = (save_token h state_home token t.disk).1 })
        ]

    -- `EnsureAuth`, of a client that has a signer
    unfoldable pub ensure_auth : Exec (Session R) (Unit {0})
    ensure_auth s = elim (request_metadata s.token) [ [] ↦ renew none s | _ ∷ _ ↦ (ok tt, s) ]
