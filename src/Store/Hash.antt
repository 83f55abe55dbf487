-- ===== src/Store/Hash.antt =====
-- Hashes of bytes are valid names, and a blob's path shows its name.
use sgard.Base.{
  ℕ, suc, ◌+◌, ◌/◌, ◌%◌, zero, ◌<◌, ◌≡◌, refl, true, false, [], ◌∷◌, Text, Bytes, ◌==◌, eqb, length,
  take, drop, All, arith,
}
use sgard.Paths.{slash}
use sgard.Paths.Clean.{IsComponent}
use sgard.Store.{hex, hex_digit, is_hex_char, all_hex, valid_hash}

hex_digit-is_hex_char : (n : ℕ) → n < 16 → is_hex_char (hex_digit n) ≡ true
unfolding is_hex_char hex_digit
hex_digit-is_hex_char n h = ground arith

hex-all_hex : (bs : Bytes) → All (λ b. b < 256) bs → all_hex (hex bs) ≡ true
unfolding all_hex hex is_hex_char
hex-all_hex [] h = refl
hex-all_hex (b ∷ bs) h = ground (
  arith,
  hex_digit-is_hex_char (b / 16) (omega (arith, h.0)),
  hex_digit-is_hex_char (b % 16) (omega arith),
  hex-all_hex bs h.1,
)

length-hex : (bs : Bytes) → length (hex bs) ≡ length bs + length bs
unfolding hex
length-hex [] = refl
length-hex (b ∷ bs) = omega (arith, length-hex bs)

-- The hexadecimal form of 32 bytes is a valid hash.
pub hex-valid_hash :
    (bs : Bytes) → length bs ≡ 32 → All (λ b. b < 256) bs → valid_hash (hex bs) ≡ true
unfolding valid_hash
hex-valid_hash bs n h = ground (arith, length-hex bs, hex-all_hex bs h)

hex_no_slash : (s : Text) → all_hex s ≡ true → All (λ c. eqb c slash ≡ false) s
unfolding all_hex
hex_no_slash [] h = tt
hex_no_slash (c ∷ s) h = (ground arith, hex_no_slash s (ground arith))

pub hex-IsComponent : (c : ℕ) (s : Text) → all_hex (c ∷ s) ≡ true → IsComponent (c ∷ s)
unfolding all_hex ◌==◌
hex-IsComponent c s h = record {
  no_slash = hex_no_slash (c ∷ s) h;
  not_nil = refl;
  not_dot = ground arith;
  not_dot_dot = ground arith;
}

pub hex_take : (n : ℕ) (s : Text) → all_hex s ≡ true → all_hex (take n s) ≡ true
unfolding all_hex
hex_take zero s h = refl
hex_take (suc n) [] h = refl
hex_take (suc n) (c ∷ s) h = ground (arith, hex_take n s)

pub hex_drop : (n : ℕ) (s : Text) → all_hex s ≡ true → all_hex (drop n s) ≡ true
unfolding all_hex
hex_drop zero s h = h
hex_drop (suc n) [] h = refl
hex_drop (suc n) (c ∷ s) h = hex_drop n s (ground arith)
