-- ===== src/Ip.antt =====
-- IPv4 addresses: pkg/internal/bpf/types.go (IPToUint32, Uint32ToIP). A `net.IP` is a byte slice
-- of length 0 (nil), 4 or 16; `to4` is the standard library's `IP.To4`.
pub mod RoundTrip
use connector.Base.{
  ℕ, ◌*◌, ◌/◌, ◌%◌, Bool, true, false, ◌&&◌, List, [], ◌∷◌, ◌++◌, bit_or, ◌==◌, if◌then◌else◌,
  length, take, drop, replicate, Bytes, u8, u32,
}

abbrev all_zero : Bytes → Bool
all_zero [] = true
all_zero (b ∷ bs) = b == 0 && all_zero bs

-- The 12 bytes before an IPv4 address in its 16-byte form.
abbrev v4_in_v6_prefix : Bytes → Bool
v4_in_v6_prefix (a ∷ b ∷ []) = a == 255 && b == 255
v4_in_v6_prefix _ = false

unfoldable pub to4 : Bytes → Bytes
to4 ip =
    if length ip == 4
    then ip
    else if length ip == 16 && all_zero (take 10 ip) && v4_in_v6_prefix (take 2 (drop 10 ip))
    then drop 12 ip
    else []

abbrev pub is_nil : Bytes → Bool
is_nil [] = true
is_nil (_ ∷ _) = false

unfoldable pub word_of_bytes : Bytes → ℕ
word_of_bytes (a ∷ b ∷ c ∷ d ∷ []) =
    bit_or (bit_or (bit_or (u32 (a * 16777216)) (u32 (b * 65536))) (u32 (c * 256))) d
word_of_bytes _ = 0

unfoldable pub ip_to_uint32 : Bytes → ℕ
unfolding to4 word_of_bytes
ip_to_uint32 ip = word_of_bytes (to4 ip)

abbrev ipv4 : ℕ → ℕ → ℕ → ℕ → Bytes
ipv4 a b c d = replicate 10 0 ++ (255 ∷ 255 ∷ a ∷ b ∷ c ∷ d ∷ [])

unfoldable pub uint32_to_ip : ℕ → Bytes
uint32_to_ip n = ipv4 (u8 (n / 16777216)) (u8 (n / 65536)) (u8 (n / 256)) (u8 n)
