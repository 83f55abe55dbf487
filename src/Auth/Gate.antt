-- ===== src/Auth/Gate.antt =====
-- server/auth.go: the keys that may sign in, the tokens that they get, and the test of a token. The
-- time is an argument, the reading of the clock in the call, in nanoseconds since Go's zero time.
pub mod Loading
use sgard.Base.{
  ℕ, zero, suc, ◌+◌, ◌-◌, ◌*◌, ◌/◌, ◌%◌, ◌^◌, Bool, true, false, ◌||◌, Option, none, some, List, [],
  ◌∷◌, Text, Bytes, codes, ◌==◌, has_suffix, ltb, leb, if◌then◌else◌, length, take, Result, ok, err,
  Error, io, Exec, ◌>>=◌, ◌>>◌, pure,
}
use sgard.Paths.{join}
use sgard.Host.{Host}
use sgard.Auth.Wire.{Signature, build_payload, parse_ssh_signature}
use sgard.Auth.Library.{Library, Claims}

abbrev pub second : ℕ
second = 1000000000

abbrev pub auth_window : ℕ
auth_window = 5 * 60 * second

abbrev pub token_ttl : ℕ
token_ttl = 30 * 24 * 60 * 60 * second

-- The seconds from Go's zero time to that of Unix
abbrev pub unix_epoch : ℕ
unix_epoch = 62135596800

-- `time.Now().Unix()`
abbrev pub unix_seconds : ℕ → ℕ
unix_seconds now = (now / second + (2 ^ 64 - unix_epoch)) % 2 ^ 64

-- `time.Since(time.Unix(ts, 0)).Abs() <= authWindow`. A time before Go's zero time is out of reach.
unfoldable pub within_window : ℕ → ℕ → Bool
within_window now ts =
    let seconds = (ts + unix_epoch) % 2 ^ 64 in
    if ltb seconds (2 ^ 63)
    then leb ((now - seconds * second) + (seconds * second - now)) auth_window
    else leb (now + (2 ^ 64 - seconds) * second) auth_window

-- sgardpb.ReauthChallenge
pub record Challenge : Type 0 where
  pub nonce : Bytes
  pub timestamp : ℕ

-- sgardpb.AuthenticateRequest
pub record Request : Type 0 where
  pub nonce : Bytes
  pub timestamp : ℕ
  pub signature : Bytes
  pub public_key : Text

-- The status that a call is refused with
pub data Refusal : Type 0 where
  invalid_public_key outside_window bad_format verification_failed : Refusal
  missing_metadata missing_token invalid_token token_expired_only internal : Refusal
  not_authorized : Text → Refusal
  -- with the challenge in its details
  token_expired : Challenge → Refusal

pub data Answer (A : Type 0) : Type 0 where
  granted : A → Answer A
  refused : Refusal → Answer A

-- `mdFirst`, of the values of a key
unfoldable pub first_of : List Text → Text
first_of [] = []
first_of (v ∷ _) = v

-- `GenerateNonce`
abbrev pub generate_nonce : (h : Host) → Exec h.State Bytes
generate_nonce h = h.rand 32

module _ (library : Library) where
  -- `AuthInterceptor`
  pub record Gate : Type 0 where
    pub authorized_keys : List (Text × library.Key)
    pub jwt_key : Bytes

  -- `keys[fp] = key`
  unfoldable pub put_key :
      Text → library.Key → List (Text × library.Key) → List (Text × library.Key)
  put_key fp key [] = (fp, key) ∷ []
  put_key fp key ((f, k) ∷ keys) =
      let rest = put_key fp key keys in if f == fp then (fp, key) ∷ keys else (f, k) ∷ rest

  unfoldable pub find_key : Text → List (Text × library.Key) → Option library.Key
  find_key fp [] = none
  find_key fp ((f, k) ∷ keys) = if f == fp then some k else find_key fp keys

  -- `NewAuthInterceptorFromKeys`
  unfoldable pub put_keys : List library.Key → List (Text × library.Key) → List (Text × library.Key)
  put_keys [] keys = keys
  put_keys (k ∷ ks) keys = put_keys ks (put_key (library.fingerprint k) k keys)

  abbrev pub gate_of_keys : List library.Key → Bytes → Gate
  gate_of_keys ks jwt_key = record { authorized_keys = put_keys ks []; jwt_key = jwt_key }

  -- The loop of `NewAuthInterceptor` over the file of the keys. The fuel is for the rounds; none where
  -- it does not suffice.
  unfoldable pub load_keys :
      ℕ → Bytes → List (Text × library.Key) → Option (List (Text × library.Key))
  load_keys fuel [] keys = some keys
  load_keys zero (b ∷ rest) keys = none
  load_keys (suc fuel) (b ∷ rest) keys = elim (library.parse_authorized_key (b ∷ rest)) [
    | none ↦ some keys
    | some (key, behind) ↦ load_keys fuel behind (put_key (library.fingerprint key) key keys)
  ]

  module _ (h : Host) where
    -- `loadOrGenerateJWTKey`, where the key is made anew
    unfoldable pub generate_key : Text → Exec h.State Bytes
    generate_key path = do key ← h.rand 32; h.write_file path key 0o600; pure key

    -- `loadOrGenerateJWTKey`
    unfoldable pub load_or_generate_jwt_key : Text → Exec h.State Bytes
    load_or_generate_jwt_key repo_path s =
        let path = join repo_path (codes "jwt.key") in
        let (r, s') = generate_key path s in
        elim (h.read_file path s) [
          | ok bytes ↦ if ltb (length bytes) 32 then (r, s') else (ok (take 32 bytes), s)
          | err _ ↦ (r, s')
        ]

    -- The rest of `NewAuthInterceptor`
    unfoldable pub with_keys : Text → List (Text × library.Key) → Exec h.State Gate
    with_keys repo_path [] s = (err (io (codes "no valid keys found")), s)
    with_keys repo_path (k ∷ keys) s =
        (do
          jwt_key ← load_or_generate_jwt_key repo_path
          pure (record { authorized_keys = k ∷ keys; jwt_key = jwt_key }))
          s

    -- `NewAuthInterceptor`. The fuel suffices: each round reads a byte at least.
    unfoldable pub new_gate : Text → Text → Exec h.State Gate
    new_gate authorized_keys_path repo_path s = elim (h.read_file authorized_keys_path s) [
      | err x ↦ (err x, s)
      | ok bytes ↦ elim (load_keys (length bytes) bytes []) [
        | none ↦ (err (io (codes "out of fuel")), s)
        | some keys ↦ with_keys repo_path keys s
      ]
    ]

  module _ (gate : Gate) where
    -- `issueToken`
    unfoldable pub issue_token : ℕ → Text → Answer Text
    issue_token now fp =
        let claims : Claims = record {
          subject = fp;
          issued_at = now;
          expires_at = now + token_ttl;
        } in
        elim (library.sign_token gate.jwt_key claims) [
          | ok token ↦ granted token
          | err _ ↦ refused internal
        ]

    -- `Authenticate`, once the key is known
    unfoldable pub authenticate_key : ℕ → Request → Text → library.Key → Answer Text
    authenticate_key now request fp key =
        if within_window now request.timestamp
        then elim (parse_ssh_signature request.signature) [
          | err _ ↦ refused bad_format
          | ok signature ↦
              if library.verify key (build_payload request.nonce request.timestamp) signature
              then issue_token now fp
              else refused verification_failed
        ]
        else refused outside_window

    -- `Authenticate`: the key of the request is only looked up; the key of the list is what verifies.
    unfoldable pub authenticate : ℕ → Request → Answer Text
    authenticate now request = elim (library.parse_authorized_key request.public_key) [
      | none ↦ refused invalid_public_key
      | some (key, _) ↦
          let fp = library.fingerprint key in
          elim (find_key fp gate.authorized_keys) [
            | none ↦ refused (not_authorized fp)
            | some authorized ↦ authenticate_key now request fp authorized
          ]
    ]

    -- `isExpiredButValid`
    unfoldable pub is_expired_but_valid : Text → Bool
    is_expired_but_valid token = elim (library.parse_unvalidated gate.jwt_key token) [
      | none ↦ false
      | some claims ↦ elim (find_key claims.subject gate.authorized_keys) [
        | none ↦ false
        | some _ ↦ true
      ]
    ]

    module _ (h : Host) (now : ℕ) where
      -- `reauthError`
      unfoldable pub reauth_error : h.State → Refusal × h.State
      reauth_error s =
          let (r, s') = h.rand 32 s in
          elim r [
            | err _ ↦ (internal, s')
            | ok nonce ↦
                if library.with_details nonce (unix_seconds now)
                then (token_expired (record { nonce = nonce; timestamp = unix_seconds now }), s')
                else (token_expired_only, s')
          ]

      -- `verifyToken`, once there is a token
      unfoldable pub verify_token_text : Text → h.State → Answer (Unit {0}) × h.State
      verify_token_text token s = elim (library.parse_token gate.jwt_key now token) [
        | none ↦
            let (refusal, s') = reauth_error s in
            if is_expired_but_valid token then (refused refusal, s') else (refused invalid_token, s)
        | some claims ↦ elim (find_key claims.subject gate.authorized_keys) [
          | none ↦ (refused (not_authorized claims.subject), s)
          | some _ ↦ (granted tt, s)
        ]
      ]

      -- `verifyToken`, for the values of the token's key in the metadata
      unfoldable pub verify_token : Option (List Text) → h.State → Answer (Unit {0}) × h.State
      verify_token none s = (refused missing_metadata, s)
      verify_token (some values) s =
          if first_of values == []
          then (refused missing_token, s)
          else verify_token_text (first_of values) s

      module _ {A : Type 0} (handler : h.State → Answer A × h.State) where
        -- `StreamInterceptor`
        unfoldable pub stream_interceptor : Option (List Text) → h.State → Answer A × h.State
        stream_interceptor metadata s =
            let (answer, s') = verify_token metadata s in
            elim answer [ refused x ↦ (refused x, s') | granted _ ↦ handler s' ]

        -- `UnaryInterceptor`
        unfoldable pub unary_interceptor : Text → Option (List Text) → h.State → Answer A × h.State
        unary_interceptor method metadata s =
            if has_suffix method (codes "/Authenticate")
            then handler s
            else stream_interceptor metadata s
