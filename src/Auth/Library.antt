-- ===== src/Auth/Library.antt =====
-- What the authentication calls and does not implement: golang.org/x/crypto/ssh and golang-jwt. Each
-- call is a field, and nothing is assumed of a field here.
use sgard.Base.{ℕ, Bool, Option, Text, Bytes, Result}
use sgard.Auth.Wire.{Signature}

-- jwt.RegisteredClaims, as far as it is used
pub record Claims : Type 0 where
  pub subject : Text
  pub issued_at : ℕ
  pub expires_at : ℕ

pub record Library : Type 1 where
  -- ssh.PublicKey
  pub Key : Type 0
  -- ssh.ParseAuthorizedKey: the first key, and what follows it
  pub parse_authorized_key : Bytes → Option (Key × Bytes)
  pub fingerprint : Key → Text
  pub verify : Key → Bytes → Signature → Bool
  -- ssh.MarshalAuthorizedKey without its last newline, and ssh.Marshal of a signature
  pub marshal_authorized_key : Key → Text
  pub marshal_signature : Signature → Bytes
  -- Status.WithDetails: whether a challenge of this nonce and time can be put into a status
  pub with_details : Bytes → ℕ → Bool
  -- a token of HS256 that is signed with the key
  pub sign_token : Bytes → Claims → Result Text
  -- jwt.ParseWithClaims at a time, for a key function that refuses what is not HMAC, and the same
  -- with jwt.WithoutClaimsValidation
  pub parse_token : Bytes → ℕ → Text → Option Claims
  pub parse_unvalidated : Bytes → Text → Option Claims
