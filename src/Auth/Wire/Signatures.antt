-- ===== src/Auth/Wire/Signatures.antt =====
-- A signature in the wire format of SSH is read back.
use sgard.Base.{
  ℕ, ◌≡◌, ◌≤◌, ◌<◌, ◌+◌, ◌/◌, ◌%◌, ◌^◌, ◌∙◌, ap, ◌∷◌, ◌++◌, Text, Bytes, [], length, length-append,
  drop, take, drop-append, take-append, Result, ok, err, if◌then◌else◌, bad_signature_format, ltb,
  arith,
}
use sgard.Auth.Wire.{Signature, read_length, parse_ssh_signature}

-- A string in the wire format: its length in four bytes, and its bytes
abbrev pub wire : Bytes → Bytes
wire s =
    (length s / 2 ^ 24 % 256)
    ∷ (length s / 2 ^ 16 % 256)
    ∷ (length s / 2 ^ 8 % 256)
    ∷ (length s % 256)
    ∷ s

read_length-wire :
    (s rest : Bytes) → length s < 2 ^ 32 → read_length (wire s ++ rest) ≡ (length s, s ++ rest)
unfolding read_length
read_length-wire s rest small = ap (λ n. (n, s ++ rest)) (omega arith)

-- The reader, with what it reads of the two lengths
read : ℕ → ℕ × Bytes → ℕ × Bytes → Result Signature
read whole (format_length, behind) (blob_length, after) =
    let rest = drop format_length behind in
    if ltb whole 4
    then err bad_signature_format
    else if ltb whole (4 + format_length)
    then err bad_signature_format
    else if ltb (length rest) 4
    then err bad_signature_format
    else if ltb (length rest) (4 + blob_length)
    then err bad_signature_format
    else ok
        (record { format = take format_length behind; blob = take blob_length after; rest = [] })

read-wire :
    (whole : ℕ) (format : Text) (blob rest : Bytes)
    → 8 + length format ≤ whole
    → read whole (length format, format ++ (wire blob ++ rest)) (length blob, blob ++ rest)
      ≡ ok (record { format = format; blob = blob; rest = [] })
unfolding read
read-wire whole format blob rest enough =
    rw
      (
        drop-append format (wire blob ++ rest),
        take-append format (wire blob ++ rest),
        take-append blob rest,
      )
      (ground (arith, enough, length-append blob rest))

-- A signature in the wire format of SSH, a string for the format and a string for the blob, each
-- shorter than 2^32, is read back without what follows it.
pub parse_ssh_signature-wire :
    (format : Text) (blob rest : Bytes)
    → length format < 2 ^ 32
    → length blob < 2 ^ 32
    → parse_ssh_signature (wire format ++ (wire blob ++ rest))
      ≡ ok (record { format = format; blob = blob; rest = [] })
unfolding parse_ssh_signature read
parse_ssh_signature-wire format blob rest small small' =
    ap (λ (r : ℕ × Bytes). read (length message) r (read_length (drop r.0 r.1)))
      (read_length-wire format (wire blob ++ rest) small)
    ∙ ap (λ l. read (length message) (length format, format ++ (wire blob ++ rest)) (read_length l))
        (drop-append format (wire blob ++ rest))
    ∙ ap (λ r. read (length message) (length format, format ++ (wire blob ++ rest)) r)
        (read_length-wire blob rest small')
    ∙ read-wire (length message) format blob rest
        (omega (arith, length-append format (wire blob ++ rest), length-append (wire blob) rest))
  where
    message : Bytes
    message = wire format ++ (wire blob ++ rest)
