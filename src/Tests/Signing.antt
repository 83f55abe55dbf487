-- ===== src/Tests/Signing.antt =====
-- The authentication, with simple stand-ins for the libraries: a key is a number, a signature the
-- checksum of the payload beside the key, and a token the time when it expires beside its subject.
use sgard.Base.{
  ℕ, ◌≡◌, ◌<◌, ◌≤◌, ◌+◌, ap, sym, subst, ◌*◌, ◌^◌, refl, true, Option, none, some, List, [], ◌∷◌,
  ◌++◌, Text, Bytes, codes, ◌==◌, eq_refl, leb, if◌then◌else◌, length, Result, ok, err, arith,
}
use sgard.Memory.Laws.{lookup-insert}
use sgard.Memory.{Files, memory, checksum, zeros}
use sgard.Auth.Wire.{Signature, parse_ssh_signature}
use sgard.Auth.Wire.Signatures.{wire, parse_ssh_signature-wire}
use sgard.Auth.Wire.Payload.{build_payload-injective}
use sgard.Auth.Library.{Library, Claims}
use sgard.Auth.Gate.{
  second, unix_epoch, Challenge, Request, Answer, granted, refused, token_expired, Gate,
  authenticate, verify_token, load_keys,
}
use sgard.Auth.Gate.Loading.{load_keys_enough}
use sgard.Auth.Tokens.{request_metadata, save_token, load_cached_token}
use sgard.Auth.Tokens.Cached.{load_cached_token-save_token}
use sgard.Auth.Login.{Signer, make_request}
use sgard.Auth.Agreement.{LibraryLaws, SignerLaws, sign_in_lem, renew_lem}
use sgard.Tests.Data.{disk}

abbrev first_key : Bytes → Option (ℕ × Bytes)
first_key [] = none
first_key (k ∷ rest) = some (k, rest)

abbrev claims_of : Text → Claims
claims_of [] = record { subject = []; issued_at = 0; expires_at = 0 }
claims_of (e ∷ subject) = record { subject = subject; issued_at = 0; expires_at = e }

abbrev library : Library
library = record {
  Key = ℕ;
  parse_authorized_key = first_key;
  fingerprint = λ key. key ∷ [];
  verify = λ key payload signature. signature.blob == (checksum payload ∷ key ∷ []);
  marshal_authorized_key = λ key. key ∷ [];
  marshal_signature = λ signature. wire signature.format ++ (wire signature.blob ++ signature.rest);
  with_details = λ nonce timestamp. true;
  sign_token = λ key claims. ok (claims.expires_at ∷ claims.subject);
  parse_token = λ key now token.
      if leb now (claims_of token).expires_at then some (claims_of token) else none;
  parse_unvalidated = λ key token. some (claims_of token);
}

abbrev signer : Signer library memory
signer = record {
  public_key = 7;
  sign = λ payload s.
      (ok (record { format = codes "sum"; blob = checksum payload ∷ 7 ∷ []; rest = [] }), s);
}

in_time : (e now : ℕ) (subject : Text) → now + second ≤ e → leb now e ≡ true
in_time e now subject fresh = ground arith

parse_by :
    (claims : Claims) (now : ℕ) (token : Text)
    → now + second ≤ claims.expires_at
    → claims.expires_at ∷ claims.subject ≡ token
    → (claims' : Claims) × (library.parse_token [] now token ≡ some claims')
      × (claims'.subject ≡ claims.subject)
parse_by claims now token fresh e =
    subst
      (λ (t : Text).
        (claims' : Claims) × (library.parse_token [] now t ≡ some claims')
        × (claims'.subject ≡ claims.subject))
      e
      (
        claims_of (claims.expires_at ∷ claims.subject),
        rw (in_time claims.expires_at now claims.subject fresh) refl,
        refl,
      )

signed_by :
    (payload : Bytes) (signature : Signature)
    → record { format = codes "sum"; blob = checksum payload ∷ 7 ∷ []; rest = [] } ≡ signature
    → (library.verify 7 payload signature ≡ true)
      × (length signature.format < 2 ^ 32)
      × (length signature.blob < 2 ^ 32)
      × (signature.rest ≡ [])
signed_by payload signature e =
    subst
      (λ (s : Signature).
        (library.verify 7 payload s ≡ true)
        × (length s.format < 2 ^ 32)
        × (length s.blob < 2 ^ 32)
        × (s.rest ≡ []))
      e (eq_refl (checksum payload ∷ 7 ∷ []), omega arith, omega arith, refl)

library-LibraryLaws : LibraryLaws library
library-LibraryLaws = record {
  key_back = λ key. ([], refl);
  marshal_wire = λ s. refl;
  sign_token_ok = λ key claims. (claims.expires_at ∷ claims.subject, refl, λ e. cc e);
  parse_signed = λ key claims token now e fresh.
      parse_by claims now token fresh
        (ap (λ (r : Result Text). elim r as (λ _. Text) [ ok t ↦ t | err _ ↦ [] ]) e);
}

signer-SignerLaws : SignerLaws library memory signer
signer-SignerLaws = record {
  sign_verifies = λ payload s s' signature e. signed_by payload signature (
      ap
        (λ (r : Result Signature × Files). elim r.0 as (λ _. Signature) [
          | ok t ↦ t
          | err _ ↦ signature
        ])
        e);
}

abbrev gate : Gate library
gate = record { authorized_keys = (7 ∷ [], 7) ∷ []; jwt_key = codes "secret" }

abbrev now : ℕ
now = (unix_epoch + 100) * second

abbrev asked : Result Request × Files
asked = make_request library memory signer none now disk

build_payload-injective_example : (codes "n" ≡ codes "n") × (◌≡◌ {A = ℕ} 5 5)
build_payload-injective_example =
    build_payload-injective (codes "n") (codes "n") 5 5 (omega arith) (omega arith) refl

parse_ssh_signature-wire_example :
    parse_ssh_signature (wire (codes "sum") ++ (wire (codes "blob") ++ []))
    ≡ ok (record { format = codes "sum"; blob = codes "blob"; rest = [] })
parse_ssh_signature-wire_example =
    parse_ssh_signature-wire (codes "sum") (codes "blob") [] (omega arith) (omega arith)

shorter :
    (bytes rest : Bytes) (key : ℕ)
    → library.parse_authorized_key bytes ≡ some (key, rest)
    → length rest < length bytes
shorter [] rest key e = cc e
shorter (k ∷ more) rest key e = ground (arith, e)

load_keys_enough_example :
    (keys : List (Text × ℕ)) × (load_keys library 2 (7 ∷ 8 ∷ []) [] ≡ some keys)
    × ((more : ℕ) → load_keys library (2 + more) (7 ∷ 8 ∷ []) [] ≡ some keys)
load_keys_enough_example = load_keys_enough library shorter (7 ∷ 8 ∷ []) []

abbrev token : Text
token = codes "token"

abbrev kept : Files
kept = (save_token memory (codes "/s") token disk).1

reads_back :
    (p : Text) (b : Bytes) (m : ℕ) (t t' : Files)
    → memory.write_file p b m t ≡ (ok tt, t')
    → memory.read_file p t' ≡ ok b
reads_back p b m t t' e =
    rw (ap (λ (r : Result (Unit {0}) × Files). r.1) (sym e), lookup-insert p p b t, eq_refl p) refl

saved_run : save_token memory (codes "/s") token disk ≡ (ok tt, kept)
unfolding save_token sgard.Auth.Tokens.token_path ◌==◌
saved_run = refl

load_cached_token-save_token_example : load_cached_token memory (codes "/s") kept ≡ token
load_cached_token-save_token_example =
    load_cached_token-save_token memory (codes "/s") token disk kept reads_back
      (refl, (refl, (refl, (refl, (refl, tt))))) (λ e. cc e) saved_run

request : Result Request × Files → Request
request (ok r, s) = r
request (err x, s) = record { nonce = []; timestamp = 0; signature = []; public_key = [] }

sign_in_lem_example :
    (t : Text) × (authenticate library gate (now + second) (request asked) ≡ granted t)
    × (verify_token library gate memory (now + second) (some (request_metadata t)) disk
        ≡ (granted tt, disk))
unfolding request make_request sgard.Auth.Login.challenge_or_new sgard.Auth.Login.sign_challenge
    sgard.Auth.Gate.find_key ◌==◌
sign_in_lem_example =
    sign_in_lem library library-LibraryLaws gate memory signer signer-SignerLaws now (now + second)
      (now + second) disk asked.1 disk (request asked) (omega arith) (omega arith) (omega arith)
      (omega arith) (omega arith) refl refl

-- A token of the signer that expired long ago
abbrev stale : Text
stale = 0 ∷ 7 ∷ []

abbrev challenge : Challenge
challenge = record { nonce = zeros 32; timestamp = 100 }

abbrev answered : Result Request × Files
answered = make_request library memory signer (some challenge) 0 disk

stale_run :
    verify_token library gate memory now (some (stale ∷ [])) disk
    ≡ (refused (token_expired challenge), disk)
unfolding verify_token sgard.Auth.Gate.first_of sgard.Auth.Gate.verify_token_text
    sgard.Auth.Gate.reauth_error sgard.Auth.Gate.is_expired_but_valid sgard.Auth.Gate.find_key ◌==◌
stale_run = refl

renew_lem_example :
    (t : Text) × (authenticate library gate (now + second) (request answered) ≡ granted t)
unfolding request make_request sgard.Auth.Login.challenge_or_new sgard.Auth.Login.sign_challenge
    sgard.Auth.Gate.find_key ◌==◌
renew_lem_example =
    renew_lem library library-LibraryLaws gate memory signer signer-SignerLaws now (now + second) 0
      (stale ∷ []) challenge disk disk disk answered.1 (request answered) (omega arith)
      (omega arith) (omega arith) (omega arith) refl stale_run refl
