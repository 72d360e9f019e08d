-- ===== src/Text/Hex.antt =====
-- Hexadecimal text: `strconv.ParseUint(s, 16, bits)`, `%04x` and `%02x`, and encoding/hex.
use connector.Base.{
  ℕ, ◌+◌, ◌-◌, ◌*◌, ◌/◌, ◌%◌, ◌<◌, ◌≡◌, refl, ap, ◌&&◌, Option, none, some, [], ◌∷◌, ◌++◌, Bytes,
  leb, ltb, if◌then◌else◌, arith, All,
}
use connector.Text.Address.{hex_digit, hex_byte}

-- The value of a digit, in either case.
abbrev pub hex_value : ℕ → Option ℕ
hex_value c =
    if leb b'0' c && leb c b'9'
    then some (c - b'0')
    else if leb b'a' c && leb c b'f'
    then some (c - b'a' + 10)
    else if leb b'A' c && leb c b'F'
    then some (c - b'A' + 10)
    else none

-- The digits read so far, and one more within the bound.
abbrev pub add_digit : ℕ → Option ℕ → Option ℕ → Option ℕ
add_digit bound none d = none
add_digit bound (some n) none = none
add_digit bound (some n) (some d) = if ltb (n * 16 + d) bound then some (n * 16 + d) else none

abbrev pub parse_hex_from : ℕ → Option ℕ → Bytes → Option ℕ
parse_hex_from bound n [] = n
parse_hex_from bound n (c ∷ cs) = parse_hex_from bound (add_digit bound n (hex_value c)) cs

-- `strconv.ParseUint(s, 16, bits)`, the bound as 2 ^ bits; none is its error.
unfoldable pub parse_hex : ℕ → Bytes → Option ℕ
parse_hex bound [] = none
parse_hex bound (c ∷ cs) = parse_hex_from bound (some 0) (c ∷ cs)

-- `%04x` of a 16-bit number.
abbrev pub hex_word : ℕ → Bytes
hex_word n = hex_byte (n / 256) ++ hex_byte (n % 256)

-- `hex.EncodeToString` and `hex.DecodeString`.
abbrev pub encode_hex : Bytes → Bytes
encode_hex [] = []
encode_hex (b ∷ bs) = hex_byte b ++ encode_hex bs

abbrev pub pair_onto : Option ℕ → Option ℕ → Option Bytes → Option Bytes
pair_onto (some h) (some l) (some bs) = some ((h * 16 + l) ∷ bs)
pair_onto _ _ _ = none

abbrev pub decode_hex : Bytes → Option Bytes
decode_hex [] = some []
decode_hex (c ∷ []) = none
decode_hex (c ∷ d ∷ cs) = pair_onto (hex_value c) (hex_value d) (decode_hex cs)

hex_value-hex_digit : (d : ℕ) → d < 16 → hex_value (hex_digit d) ≡ some d
hex_value-hex_digit d lt = ground arith

pub parse_hex-hex_byte : (n : ℕ) → n < 256 → parse_hex 256 (hex_byte n) ≡ some n
unfolding parse_hex
parse_hex-hex_byte n lt =
    rw
      (hex_value-hex_digit (n / 16) (omega (arith, lt)), hex_value-hex_digit (n % 16) (omega arith))
      (ground arith)

pub parse_hex-hex_word : (n : ℕ) → n < 65536 → parse_hex 65536 (hex_word n) ≡ some n
unfolding parse_hex
parse_hex-hex_word n lt =
    rw
      (
        hex_value-hex_digit (n / 256 / 16) (omega (arith, lt)),
        hex_value-hex_digit (n / 256 % 16) (omega arith),
        hex_value-hex_digit (n % 256 / 16) (omega arith),
        hex_value-hex_digit (n % 256 % 16) (omega arith),
      )
      (ground arith)

pub decode_hex-encode_hex :
    (bs : Bytes) → All (λ b. b < 256) bs → decode_hex (encode_hex bs) ≡ some bs
decode_hex-encode_hex [] h = refl
decode_hex-encode_hex (b ∷ bs) (lt, h) =
    rw
      (
        hex_value-hex_digit (b / 16) (omega (arith, lt)),
        hex_value-hex_digit (b % 16) (omega arith),
        decode_hex-encode_hex bs h,
      )
      (ap (λ x. some (x ∷ bs)) (omega arith))
