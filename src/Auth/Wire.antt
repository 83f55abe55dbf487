-- ===== src/Auth/Wire.antt =====
-- What is signed, and how a signature is read: `buildPayload`, of both packages, and
-- `parseSSHSignature` of server/auth.go.
pub mod Payload
pub mod Signatures
use sgard.Base.{
  ℕ, zero, suc, ◌+◌, ◌*◌, ◌/◌, ◌%◌, List, [], ◌∷◌, ◌++◌, Text, Bytes, ltb, length, take, drop,
  if◌then◌else◌, Result, ok, err, bad_signature_format,
}

-- ssh.Signature
pub record Signature : Type 0 where
  pub format : Text
  pub blob : Bytes
  pub rest : Bytes

-- The loop of `buildPayload` over the last `n` bytes, from the last one on
unfoldable pub big_endian : ℕ → ℕ → Bytes
big_endian zero ts = []
big_endian (suc n) ts = big_endian n (ts / 256) ++ (ts % 256 ∷ [])

-- `buildPayload`
unfoldable pub build_payload : Bytes → ℕ → Bytes
build_payload nonce ts = nonce ++ big_endian 8 ts

-- The length in four bytes, with what is behind them; none where they are not there
unfoldable pub read_length : Bytes → ℕ × Bytes
read_length (a ∷ b ∷ c ∷ d ∷ rest) = (((a * 256 + b) * 256 + c) * 256 + d, rest)
read_length bytes = (0, [])

-- `parseSSHSignature`: what follows the blob is not kept.
unfoldable pub parse_ssh_signature : Bytes → Result Signature
parse_ssh_signature bytes =
    let (format_length, behind) = read_length bytes in
    let rest = drop format_length behind in
    let (blob_length, after) = read_length rest in
    if ltb (length bytes) 4
    then err bad_signature_format
    else if ltb (length bytes) (4 + format_length)
    then err bad_signature_format
    else if ltb (length rest) 4
    then err bad_signature_format
    else if ltb (length rest) (4 + blob_length)
    then err bad_signature_format
    else ok
        (record { format = take format_length behind; blob = take blob_length after; rest = [] })
