-- ===== src/Mode.antt =====
-- The mode text of a manifest entry: `fmt.Sprintf("%04o", perm)` and `parseMode` of
-- garden/garden.go.
use sgard.Base.{
  ℕ, zero, suc, ◌+◌, ◌-◌, ◌*◌, ◌/◌, ◌%◌, ◌^◌, ◌<◌, ◌≡◌, refl, Bool, true, false, ◌&&◌, [], ◌∷◌,
  Text, ltb, leb, eqb, if◌then◌else◌, Result, ok, err, invalid_mode, arith,
}

octal : ℕ → ℕ → Text → Text
octal zero n acc = acc
octal (suc f) n acc =
    let digits = (b'0' + n % 8) ∷ acc in
    let rest = octal f (n / 8) digits in if eqb (n / 8) 0 then digits else rest

pad4 : Text → Text
pad4 (a ∷ []) = b'0' ∷ b'0' ∷ b'0' ∷ a ∷ []
pad4 (a ∷ b ∷ []) = b'0' ∷ b'0' ∷ a ∷ b ∷ []
pad4 (a ∷ b ∷ c ∷ []) = b'0' ∷ a ∷ b ∷ c ∷ []
pad4 s = s

-- `%04o` of a 32-bit mode, which has eleven octal digits at most
unfoldable pub format_mode : ℕ → Text
unfolding octal pad4
format_mode n = pad4 (octal 11 n [])

-- strconv.ParseUint(s, 8, 32)
parse_octal : Text → ℕ → Text → Result ℕ
parse_octal whole n [] = ok n
parse_octal whole n (c ∷ s) =
    let n' = n * 8 + (c - b'0') in
    let rest = parse_octal whole n' s in
    if leb b'0' c && leb c b'7'
    then if ltb n' (2 ^ 32) then rest else err (invalid_mode whole)
    else err (invalid_mode whole)

-- `parseMode`
unfoldable pub parse_mode : Text → Result ℕ
unfolding parse_octal
parse_mode [] = ok 0o644
parse_mode (c ∷ s) = parse_octal (c ∷ s) 0 (c ∷ s)

is_value : ℕ → Result ℕ → Bool
is_value n (ok m) = eqb n m
is_value n (err e) = false

is_value_sound : (n : ℕ) (r : Result ℕ) → is_value n r ≡ true → r ≡ ok n
unfolding is_value
is_value_sound n (ok m) h = ground arith
is_value_sound n (err e) h = ground arith

reads_back : ℕ → Bool
reads_back perm = is_value perm (parse_mode (format_mode perm))

reads_back_sound : (perm : ℕ) → reads_back perm ≡ true → parse_mode (format_mode perm) ≡ ok perm
unfolding reads_back
reads_back_sound perm kept = is_value_sound perm (parse_mode (format_mode perm)) kept

-- Every permission below a bound is read back.
modes_kept : ℕ → Bool
modes_kept zero = true
modes_kept (suc perm) = let smaller = modes_kept perm in if reads_back perm then smaller else false

kept_value : (bound perm : ℕ) → modes_kept bound ≡ true → perm < bound → reads_back perm ≡ true
unfolding modes_kept
kept_value zero perm kept below = elim below [ ]
kept_value (suc bound) perm kept below = ground (arith, kept_value bound perm)

modes_kept_512 : modes_kept 512 ≡ true
unfolding modes_kept reads_back is_value parse_mode format_mode
modes_kept_512 = refl

-- A permission that is recorded in the manifest is the one that is read back.
pub parse_mode-format_mode : (perm : ℕ) → perm < 512 → parse_mode (format_mode perm) ≡ ok perm
parse_mode-format_mode perm h = reads_back_sound perm (kept_value 512 perm modes_kept_512 h)

-- What `parseMode` accepts fits into 32 bits.
parse_octal-lt :
    (whole : Text) (n m : ℕ) (s : Text) → n < 2 ^ 32 → parse_octal whole n s ≡ ok m → m < 2 ^ 32
unfolding parse_octal
parse_octal-lt whole n m [] b h = ground arith
parse_octal-lt whole n m (c ∷ s) b h = ground (arith, parse_octal-lt whole (n * 8 + (c - b'0')) m s)

-- Every mode that `parseMode` accepts, the default for an empty text included, fits into 32 bits.
pub parse_mode-lt : (s : Text) (m : ℕ) → parse_mode s ≡ ok m → m < 2 ^ 32
unfolding parse_mode
parse_mode-lt [] m h = ground arith
parse_mode-lt (c ∷ s) m h = parse_octal-lt (c ∷ s) 0 m (c ∷ s) (omega arith) h
