-- ===== src/Auth/Agreement.antt =====
-- What the client signs is what the server verifies, and what it then issues is what it lets in.
use sgard.Base.{
  ℕ, ◌≡◌, ◌≢◌, ◌≤◌, ◌<◌, ◌+◌, ◌-◌, ◌*◌, ◌/◌, ◌%◌, ◌^◌, ◌∙◌, refl, sym, ap, subst, true, Option,
  some, none, List, [], ◌++◌, Text, Bytes, ◌==◌, ne_false, length, Result, ok, err, >>=-eq-ok,
  arith, ltb, leb, if◌then◌else◌, Bool-cases, inl, inr,
}
use sgard.Host.{Host}
use sgard.Auth.Wire.{Signature, build_payload, parse_ssh_signature}
use sgard.Auth.Wire.Signatures.{wire, parse_ssh_signature-wire}
use sgard.Auth.Library.{Library, Claims}
use sgard.Auth.Gate.{
  second, auth_window, token_ttl, unix_epoch, unix_seconds, within_window, Challenge, Request,
  Answer, granted, refused, Refusal, token_expired, token_expired_only, internal, not_authorized,
  invalid_token, is_expired_but_valid, Gate, find_key, issue_token, authenticate_key, authenticate,
  first_of, verify_token, verify_token_text, reauth_error,
}
use sgard.Auth.Tokens.{request_metadata}
use sgard.Auth.Login.{Signer, challenge_or_new, sign_challenge, make_request}

-- What the proofs assume of the libraries: their documented behaviour.
pub record LibraryLaws (library : Library) : Type 0 where
  -- a marshalled key is parsed as that key
  pub key_back :
      (key : library.Key)
      → (rest : Bytes) × (library.parse_authorized_key (library.marshal_authorized_key key)
          ≡ some (key, rest))
  -- RFC 4253: a signature is the string of its format and the string of its blob, and in Go what
  -- follows them
  pub marshal_wire :
      (s : Signature) → library.marshal_signature s ≡ wire s.format ++ (wire s.blob ++ s.rest)
  -- signing with HS256 and a key of bytes does not fail, and no token is empty
  pub sign_token_ok :
      (key : Bytes) (claims : Claims)
      → (token : Text) × (library.sign_token key claims ≡ ok token) × (token ≢ [])
  -- a token is valid up to the second in which it expires
  pub parse_signed :
      (key : Bytes) (claims : Claims) (token : Text) (now : ℕ)
      → library.sign_token key claims ≡ ok token
      → now + second ≤ claims.expires_at
      → (claims' : Claims) × (library.parse_token key now token ≡ some claims')
        × (claims'.subject ≡ claims.subject)

-- A signature of the signer verifies under its key; its parts are shorter than 2^32. Its key is not one
-- of a security key (sk-ssh-ed25519, sk-ecdsa), whose signatures have their flags and counter behind
-- the blob.
pub record SignerLaws (library : Library) (h : Host) (signer : Signer library h) : Type 0 where
  pub sign_verifies :
      (payload : Bytes) (s s' : h.State) (signature : Signature)
      → signer.sign payload s ≡ (ok signature, s')
      → (library.verify signer.public_key payload signature ≡ true)
        × (length signature.format < 2 ^ 32)
        × (length signature.blob < 2 ^ 32)
        × (signature.rest ≡ [])

-- A time in seconds that is at most the window less a second old is within the window.
unix_back :
    (now : ℕ)
    → unix_epoch * second ≤ now
    → now < 2 ^ 62 * second
    → (unix_seconds now + unix_epoch) % 2 ^ 64 ≡ now / second
unix_back now epoch small = omega arith

within_window-unix_seconds :
    (now later : ℕ)
    → unix_epoch * second ≤ now
    → now < 2 ^ 62 * second
    → now ≤ later
    → later + second ≤ now + auth_window
    → within_window later (unix_seconds now) ≡ true
unfolding within_window
within_window-unix_seconds now later epoch small order fresh =
    rw (unix_back now epoch small, no_wrap) fits
  where
    no_wrap : ltb (now / second) (2 ^ 63) ≡ true
    no_wrap = ground arith

    fits :
        leb ((later - now / second * second) + (now / second * second - later)) auth_window ≡ true
    fits = ground arith

module _ (library : Library) (laws : LibraryLaws library) (gate : Gate library) where
  issued :
      (now : ℕ) (fp : Text)
      → (token : Text) × (issue_token library gate now fp ≡ granted token)
        × (library.sign_token gate.jwt_key
              (record { subject = fp; issued_at = now; expires_at = now + token_ttl })
            ≡ ok token)
        × (token ≢ [])
  unfolding issue_token
  issued now fp =
      let claims : Claims = record {
        subject = fp;
        issued_at = now;
        expires_at = now + token_ttl;
      } in
      let (token, signed, named) = laws.sign_token_ok gate.jwt_key claims in
      (token, rw (signed, issue_token) refl, signed, named)

  verify_issued :
      (h : Host) (now when : ℕ) (fp token : Text) (key : library.Key) (s : h.State)
      → find_key library fp gate.authorized_keys ≡ some key
      → library.sign_token gate.jwt_key
          (record { subject = fp; issued_at = now; expires_at = now + token_ttl })
        ≡ ok token
      → token ≢ []
      → when + second ≤ now + token_ttl
      → verify_token library gate h when (some (request_metadata token)) s ≡ (granted tt, s)
  unfolding verify_token verify_token_text first_of request_metadata
  verify_issued h now when fp token key s known signed named fresh =
      let claims : Claims = record {
        subject = fp;
        issued_at = now;
        expires_at = now + token_ttl;
      } in
      let (claims', parsed, same) = laws.parse_signed gate.jwt_key claims token when signed fresh in
      let known' : find_key library claims'.subject gate.authorized_keys ≡ some key =
        subst (λ (x : Text). find_key library x gate.authorized_keys ≡ some key) (sym same) known in
      rw (ne_false token [] named, ne_false token [] named)
        (rw (parsed, known', verify_token_text) refl)

  accepted_request :
      (later : ℕ) (c : Challenge) (signature : Signature) (key : library.Key) (rest : Bytes)
      → library.parse_authorized_key (library.marshal_authorized_key key) ≡ some (key, rest)
      → find_key library (library.fingerprint key) gate.authorized_keys ≡ some key
      → within_window later c.timestamp ≡ true
      → parse_ssh_signature (library.marshal_signature signature) ≡ ok signature
      → library.verify key (build_payload c.nonce c.timestamp) signature ≡ true
      → authenticate library gate later (record {
        nonce = c.nonce;
        timestamp = c.timestamp;
        signature = library.marshal_signature signature;
        public_key = library.marshal_authorized_key key;
      })
        ≡ issue_token library gate later (library.fingerprint key)
  unfolding authenticate issue_token authenticate_key
  accepted_request later c signature key rest parsed known fresh read verified =
      rw (authenticate, parsed, known, authenticate_key, fresh, read, verified) refl

  module _ (h : Host) (signer : Signer library h) (honest : SignerLaws library h signer) where
    -- A request of a known signer is granted within the window.
    make_request-authenticate :
        (challenge : Option Challenge) (now later : ℕ) (d d' : h.State) (request : Request)
        → make_request library h signer challenge now d ≡ (ok request, d')
        → find_key library (library.fingerprint signer.public_key) gate.authorized_keys
          ≡ some signer.public_key
        → within_window later request.timestamp ≡ true
        → authenticate library gate later request
          ≡ issue_token library gate later (library.fingerprint signer.public_key)
    unfolding make_request sign_challenge
    make_request-authenticate challenge now later d d' request made known fresh =
        let (c, d₁, chosen, rest) =
          >>=-eq-ok (challenge_or_new library h signer challenge now)
            (sign_challenge library h signer) d request d' made in
        let (signature, d₂, signed, packed) =
          >>=-eq-ok (signer.sign (build_payload c.nonce c.timestamp)) _ d₁ request d' rest in
        let packed' : request ≡ record {
          nonce = c.nonce;
          timestamp = c.timestamp;
          signature = library.marshal_signature signature;
          public_key = library.marshal_authorized_key signer.public_key;
        } =
          ap
            (λ (r : Result Request × h.State). elim r.0 as (λ _. Request) [
              | ok q ↦ q
              | err _ ↦ request
            ])
            (sym packed) in
        let (behind, key) = laws.key_back signer.public_key in
        let (verified, small, small', no_rest) =
          honest.sign_verifies (build_payload c.nonce c.timestamp) d₁ d₂ signature signed in
        let fresh' : within_window later c.timestamp ≡ true =
          subst (λ (r : Request). within_window later r.timestamp ≡ true) packed' fresh in
        let parsed : parse_ssh_signature (library.marshal_signature signature) ≡ ok signature =
          ap parse_ssh_signature (laws.marshal_wire signature)
          ∙ parse_ssh_signature-wire signature.format signature.blob signature.rest small small'
          ∙ ap
              (λ (r : Bytes).
                ok (record { format = signature.format; blob = signature.blob; rest = r }))
              (sym no_rest) in
        subst
          (λ (r : Request).
            authenticate library gate later r
            ≡ issue_token library gate later (library.fingerprint signer.public_key))
          (sym packed')
          (accepted_request later c signature signer.public_key behind key known fresh' parsed
            verified)

    new_timestamp :
        (now : ℕ) (c : Challenge) (d d' : h.State)
        → challenge_or_new library h signer none now d ≡ (ok c, d')
        → c.timestamp ≡ unix_seconds now
    unfolding challenge_or_new
    new_timestamp now c d d' e =
        let (nonce, d₁, drawn, made) = >>=-eq-ok (h.rand 32) _ d c d' e in
        ap
          (λ (r : Result Challenge × h.State). elim r.0 as (λ _. ℕ) [
            | ok q ↦ q.timestamp
            | err _ ↦ c.timestamp
          ])
          (sym made)

    -- The request has the time of its challenge.
    make_request-timestamp :
        (challenge : Option Challenge) (now : ℕ) (d d' : h.State) (request : Request)
        → make_request library h signer challenge now d ≡ (ok request, d')
        → (c : Challenge) × (d₁ : h.State) × (challenge_or_new library h signer challenge now d
            ≡ (ok c, d₁))
          × (request.timestamp ≡ c.timestamp)
    unfolding make_request sign_challenge
    make_request-timestamp challenge now d d' request made =
        let (c, d₁, chosen, rest) =
          >>=-eq-ok (challenge_or_new library h signer challenge now)
            (sign_challenge library h signer) d request d' made in
        let (signature, d₂, signed, packed) =
          >>=-eq-ok (signer.sign (build_payload c.nonce c.timestamp)) _ d₁ request d' rest in
        (
          c,
          d₁,
          chosen,
          ap
              (λ (r : Result Request × h.State). elim r.0 as (λ _. ℕ) [
                | ok q ↦ q.timestamp
                | err _ ↦ c.timestamp
              ])
              (sym packed),
        )

    -- A signer whose key the server knows, under the laws of `LibraryLaws` and `SignerLaws`: a request
    -- of the client with a nonce and a time of its own, received at most five minutes less a second
    -- later, gets a token, and the server then lets in every call that carries the token, by the
    -- metadata of the client, up to thirty days less a second behind that. The clock lies between
    -- 1970 and 2^62 seconds.
    pub sign_in_lem :
        (now later when : ℕ) (d d' s : h.State) (request : Request)
        → unix_epoch * second ≤ now
        → now < 2 ^ 62 * second
        → now ≤ later
        → later + second ≤ now + auth_window
        → when + second ≤ later + token_ttl
        → find_key library (library.fingerprint signer.public_key) gate.authorized_keys
          ≡ some signer.public_key
        → make_request library h signer none now d ≡ (ok request, d')
        → (token : Text) × (authenticate library gate later request ≡ granted token)
          × (verify_token library gate h when (some (request_metadata token)) s ≡ (granted tt, s))
    sign_in_lem now later when d d' s request epoch small order fresh valid known made =
        let fp = library.fingerprint signer.public_key in
        let (token, given, signed, named) = issued later fp in
        let (c, d₁, chosen, time) = make_request-timestamp none now d d' request made in
        let inside : within_window later request.timestamp ≡ true =
          rw (time, new_timestamp now c d d₁ chosen)
            (within_window-unix_seconds now later epoch small order fresh) in
        (
          token,
          make_request-authenticate none now later d d' request made known inside ∙ given,
          verify_issued h later when fp token signer.public_key s known signed named valid,
        )

    reauth_out :
        (now : ℕ) (c : Challenge) (out : Result Bytes × h.State)
        → (let r : Refusal × h.State = elim out.0 [
          | err _ ↦ (internal, out.1)
          | ok nonce ↦
              if library.with_details nonce (unix_seconds now)
              then (token_expired (record { nonce = nonce; timestamp = unix_seconds now }), out.1)
              else (token_expired_only, out.1)
        ] in
            r).0
          ≡ token_expired c
        → c.timestamp ≡ unix_seconds now
    reauth_out now c (ok nonce, s) e =
        elim (Bool-cases (library.with_details nonce (unix_seconds now))) [
          | inl packed ↦
              ap (λ r. elim r as (λ _. ℕ) [ token_expired q ↦ q.timestamp | _ ↦ c.timestamp ])
                (sym (rw packed at e))
          | inr unpacked ↦ cc (rw unpacked at e)
        ]
    reauth_out now c (err x, s) e = cc e

    refusal_of : Answer (Unit {0}) → Refusal
    refusal_of (granted _) = internal
    refusal_of (refused x) = x

    looked_up :
        (found : Option library.Key) (fp : Text) (c : Challenge) (s : h.State)
        → refusal_of (
            let r : Answer (Unit {0}) × h.State = elim found [
              | none ↦ (refused (not_authorized fp), s)
              | some _ ↦ (granted tt, s)
            ] in
            r.0)
          ≡ token_expired c
        → ⊥
    unfolding refusal_of
    looked_up none fp c s e = cc e
    looked_up (some key) fp c s e = cc e

    challenged_by :
        (now : ℕ) (token : Text) (c : Challenge) (s : h.State) (parsed : Option Claims)
        → refusal_of (
            let r : Answer (Unit {0}) × h.State = elim parsed [
              | none ↦
                  let (refusal, s') = reauth_error library gate h now s in
                  if is_expired_but_valid library gate token
                  then (refused refusal, s')
                  else (refused invalid_token, s)
              | some claims ↦ elim (find_key library claims.subject gate.authorized_keys) [
                | none ↦ (refused (not_authorized claims.subject), s)
                | some _ ↦ (granted tt, s)
              ]
            ] in
            r.0)
          ≡ token_expired c
        → c.timestamp ≡ unix_seconds now
    unfolding reauth_error refusal_of
    challenged_by now token c s (some claims) e =
        absurd
          (looked_up (find_key library claims.subject gate.authorized_keys) claims.subject c s e)
    challenged_by now token c s none e =
        elim (Bool-cases (is_expired_but_valid library gate token)) [
          | inl expired ↦ reauth_out now c (h.rand 32 s) (rw expired at e)
          | inr invalid ↦ cc (rw invalid at e)
        ]

    challenged :
        (now : ℕ) (token : Text) (c : Challenge) (s s' : h.State)
        → verify_token_text library gate h now token s ≡ (refused (token_expired c), s')
        → c.timestamp ≡ unix_seconds now
    unfolding verify_token_text refusal_of
    challenged now token c s s' e =
        challenged_by now token c s (library.parse_token gate.jwt_key now token)
          (ap (λ (r : Answer (Unit {0}) × h.State). refusal_of r.0) e)

    -- A token that is refused as expired can be renewed by the challenge that comes with the refusal:
    -- under the laws of `LibraryLaws` and `SignerLaws`, the request that a signer whose key the server
    -- knows makes of that challenge gets a token, if it is received at most five minutes less a second
    -- behind the refusal, whatever the clock of the client shows. The clock of the server lies between
    -- 1970 and 2^62 seconds.
    pub renew_lem :
        (now later client : ℕ) (values : List Text) (c : Challenge) (s s' d d' : h.State)
        (request : Request)
        → unix_epoch * second ≤ now
        → now < 2 ^ 62 * second
        → now ≤ later
        → later + second ≤ now + auth_window
        → find_key library (library.fingerprint signer.public_key) gate.authorized_keys
          ≡ some signer.public_key
        → verify_token library gate h now (some values) s ≡ (refused (token_expired c), s')
        → make_request library h signer (some c) client d ≡ (ok request, d')
        → (token : Text) × (authenticate library gate later request ≡ granted token)
    unfolding verify_token challenge_or_new refusal_of
    renew_lem now later client values c s s' d d' request epoch small order fresh known expired
          made =
        let (token, given, _, _) = issued later (library.fingerprint signer.public_key) in
        let (q, d₁, chosen, time) = make_request-timestamp (some c) client d d' request made in
        let same : q.timestamp ≡ c.timestamp =
          ap
            (λ (r : Result Challenge × h.State). elim r.0 as (λ _. ℕ) [
              | ok x ↦ x.timestamp
              | err _ ↦ c.timestamp
            ])
            (sym chosen) in
        let inside : within_window later request.timestamp ≡ true =
          rw (time, same, stamped) (within_window-unix_seconds now later epoch small order fresh) in
        (
          token,
          make_request-authenticate (some c) client later d d' request made known inside ∙ given,
        )
      where
        stamped : c.timestamp ≡ unix_seconds now
        stamped = elim (Bool-cases (first_of values == [])) [
          | inl missing ↦
              cc (ap (λ (r : Answer (Unit {0}) × h.State). refusal_of r.0) (rw missing at expired))
          | inr there ↦ challenged now (first_of values) c s s' (rw there at expired)
        ]
