-- ===== src/Text.antt =====
-- The functions of the standard library's `strings`, `bytes` and `strconv` that the program's text protocols use,
-- on byte strings that are ASCII.
pub mod Words
pub mod Decimal
pub mod Address
pub mod Hex
use Prim.Native.Char.{code}
use Prim.Native.String.{String}
use connector.Base.{
  ℕ, zero, suc, ◌+◌, ◌*◌, ◌-◌, ◌/◌, ◌%◌, Bool, true, false, not, ◌&&◌, ◌||◌, Option, none, some,
  List, [], ◌∷◌, ◌++◌, leb, ltb, ◌==◌, if◌then◌else◌, Bytes,
}

-- The bytes of a text.
abbrev pub codes : String → Bytes
codes String.[] = []
codes (String.◌∷◌ c s) = code c ∷ codes s

abbrev pub is_space : ℕ → Bool
is_space c = c == b' ' || (leb 9 c && leb c 13)

abbrev pub is_empty {ℓ} : {A : Type ℓ} → List A → Bool
is_empty [] = true
is_empty (_ ∷ _) = false

abbrev pub push_front : ℕ → List Bytes → List Bytes
push_front c [] = (c ∷ []) ∷ []
push_front c (w ∷ ws) = (c ∷ w) ∷ ws

-- Split at every white byte, keeping empty pieces.
abbrev pub pieces : Bytes → List Bytes
pieces [] = [] ∷ []
pieces (c ∷ cs) = let rest = pieces cs in if is_space c then [] ∷ rest else push_front c rest

abbrev pub full : List Bytes → List Bytes
full [] = []
full (w ∷ ws) = if is_empty w then full ws else w ∷ full ws

-- `strings.Fields`.
unfoldable pub fields : Bytes → List Bytes
fields s = full (pieces s)

abbrev pub trim_left : Bytes → Bytes
trim_left [] = []
trim_left (c ∷ cs) = if is_space c then trim_left cs else c ∷ cs

-- `strings.TrimRightFunc`.
abbrev pub trim_right : (ℕ → Bool) → Bytes → Bytes
trim_right p [] = []
trim_right p (c ∷ cs) = let rest = trim_right p cs in if p c && is_empty rest then [] else c ∷ rest

-- `strings.TrimSpace`.
unfoldable pub trim_space : Bytes → Bytes
trim_space s = trim_right is_space (trim_left s)

abbrev pub has_byte : ℕ → Bytes → Bool
has_byte b [] = false
has_byte b (c ∷ cs) = c == b || has_byte b cs

-- `strings.Cut` at one byte: the text before it and after it.
abbrev pub cut_on : ℕ → Option (Bytes × Bytes) → Option (Bytes × Bytes)
cut_on c none = none
cut_on c (some (k, v)) = some (c ∷ k, v)

unfoldable pub cut : ℕ → Bytes → Option (Bytes × Bytes)
cut b [] = none
cut b (c ∷ cs) = let rest = cut b cs in if c == b then some ([], cs) else cut_on c rest

-- `bytes.HasPrefix` with the rest behind it.
abbrev pub strip_prefix : Bytes → Bytes → Option Bytes
strip_prefix [] s = some s
strip_prefix (p ∷ ps) [] = none
strip_prefix (p ∷ ps) (c ∷ cs) = if p == c then strip_prefix ps cs else none

-- The text before the first NUL byte, or the whole of it.
unfoldable pub before_nul : Bytes → Bytes
before_nul [] = []
before_nul (c ∷ cs) = if c == 0 then [] else c ∷ before_nul cs

-- `%d`: the digits, with a round for each.
abbrev pub digits_from : ℕ → ℕ → Bytes → Bytes
digits_from zero n out = out
digits_from (suc f) n out =
    let more = digits_from f (n / 10) ((b'0' + n % 10) ∷ out) in
    if ltb n 10 then (b'0' + n) ∷ out else more

unfoldable pub format_uint : ℕ → Bytes
format_uint n = digits_from (n + 1) n []

abbrev pub is_digit : ℕ → Bool
is_digit c = leb b'0' c && leb c b'9'

-- `strconv.ParseUint(s, 10, bits)`, the bound as 2 ^ bits; none is its error.
abbrev pub parse_from : ℕ → ℕ → Bytes → Option ℕ
parse_from bound n [] = some n
parse_from bound n (c ∷ cs) =
    let next = n * 10 + (c - b'0') in
    let rest = parse_from bound next cs in if is_digit c && ltb next bound then rest else none

unfoldable pub parse_uint : ℕ → Bytes → Option ℕ
parse_uint bound [] = none
parse_uint bound (c ∷ cs) = parse_from bound 0 (c ∷ cs)
