-- ===== src/Auth/Wire/Payload.antt =====
-- The payload tells apart what is signed.
use sgard.Base.{
  ℕ, zero, suc, ◌≡◌, ◌<◌, ◌+◌, ◌*◌, ◌/◌, ◌%◌, ◌^◌, refl, ◌∙◌, sym, ap, [], ◌∷◌, ◌++◌, Bytes, length,
  length-append, drop, take, drop-append, take-append, arith,
}
use sgard.Auth.Wire.{big_endian, build_payload}

length-big_endian : (n ts : ℕ) → length (big_endian n ts) ≡ n
unfolding big_endian
length-big_endian zero ts = refl
length-big_endian (suc n) ts =
    omega (
      arith,
      length-append (big_endian n (ts / 256)) (ts % 256 ∷ []),
      length-big_endian n (ts / 256),
    )

-- The number that the bytes stand for
value : Bytes → ℕ → ℕ
value [] acc = acc
value (b ∷ bs) acc = value bs (acc * 256 + b)

value-append : (xs ys : Bytes) (acc : ℕ) → value (xs ++ ys) acc ≡ value ys (value xs acc)
unfolding value
value-append [] ys acc = refl
value-append (x ∷ xs) ys acc = value-append xs ys (acc * 256 + x)

-- 256 ^ n
bytes_bound : ℕ → ℕ
bytes_bound zero = 1
bytes_bound (suc n) = bytes_bound n * 256

value-big_endian : (n ts : ℕ) → ts < bytes_bound n → value (big_endian n ts) 0 ≡ ts
unfolding value big_endian bytes_bound
value-big_endian zero ts small = omega arith
value-big_endian (suc n) ts small =
    value-append (big_endian n (ts / 256)) (ts % 256 ∷ []) 0
    ∙ ap (λ v. v * 256 + ts % 256) (value-big_endian n (ts / 256) (omega arith))
    ∙ (omega arith)

-- One payload is made of one nonce and one time: a signature of a payload is a signature of no other
-- nonce and no other time, for times of 64 bits and nonces of any length.
pub build_payload-injective :
    (nonce nonce' : Bytes) (ts ts' : ℕ)
    → ts < 2 ^ 64
    → ts' < 2 ^ 64
    → build_payload nonce ts ≡ build_payload nonce' ts'
    → (nonce ≡ nonce') × (ts ≡ ts')
unfolding build_payload bytes_bound
build_payload-injective nonce nonce' ts ts' small small' e = (front, back)
  where
    same_length : length nonce ≡ length nonce'
    same_length = omega (
      arith,
      ap length e,
      length-append nonce (big_endian 8 ts),
      length-append nonce' (big_endian 8 ts'),
      length-big_endian 8 ts,
      length-big_endian 8 ts',
    )

    front : nonce ≡ nonce'
    front =
        sym (take-append nonce (big_endian 8 ts))
        ∙ ap (λ n. take n (build_payload nonce ts)) same_length
        ∙ ap (λ p. take (length nonce') p) e
        ∙ take-append nonce' (big_endian 8 ts')

    tails : big_endian 8 ts ≡ big_endian 8 ts'
    tails =
        sym (drop-append nonce (big_endian 8 ts))
        ∙ ap (λ n. drop n (build_payload nonce ts)) same_length
        ∙ ap (λ p. drop (length nonce') p) e
        ∙ drop-append nonce' (big_endian 8 ts')

    back : ts ≡ ts'
    back =
        sym (value-big_endian 8 ts small)
        ∙ ap (λ b. value b 0) tails
        ∙ value-big_endian 8 ts' small'
