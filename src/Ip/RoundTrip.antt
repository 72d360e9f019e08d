-- ===== src/Ip/RoundTrip.antt =====
-- The two conversions of pkg/internal/bpf/types.go undo one another.
use connector.Base.{
  Bytes, refl, ℕ, ◌+◌, ◌*◌, ◌/◌, ◌<◌, ◌≡◌, ◌∙◌, [], ◌∷◌, bit_or-field, arith, u32, u8,
}
use connector.Ip.{to4, word_of_bytes, ip_to_uint32, uint32_to_ip}

pub word_of_bytes-sum :
    (a b c d : ℕ)
    → a < 256
    → b < 256
    → c < 256
    → d < 256
    → word_of_bytes (a ∷ b ∷ c ∷ d ∷ []) ≡ a * 16777216 + b * 65536 + c * 256 + d
unfolding word_of_bytes
word_of_bytes-sum a b c d ha hb hc hd =
    let e1 = bit_or-field 24 a (u32 (a * 16777216)) (u32 (b * 65536)) (omega arith) (omega arith) in
    let e2 =
      bit_or-field 16 (a * 256 + b) (u32 (a * 16777216) + u32 (b * 65536)) (u32 (c * 256))
        (omega arith) (omega arith) in
    let e3 =
      bit_or-field 8 (a * 65536 + b * 256 + c)
        (u32 (a * 16777216) + u32 (b * 65536) + u32 (c * 256)) d (omega arith) (omega arith) in
    rw (e1, e2, e3) (omega arith)

-- A 32-bit word survives the trip through an address.
pub ip_to_uint32-uint32_to_ip : (n : ℕ) → n < 4294967296 → ip_to_uint32 (uint32_to_ip n) ≡ n
unfolding ip_to_uint32 uint32_to_ip to4
ip_to_uint32-uint32_to_ip n h =
    word_of_bytes-sum (u8 (n / 16777216)) (u8 (n / 65536)) (u8 (n / 256)) (u8 n) (omega arith)
      (omega arith) (omega arith) (omega arith)
    ∙ omega arith

-- A four-byte address survives the trip through a word, as its 16-byte form's last four bytes.
pub to4-uint32_to_ip :
    (a b c d : ℕ)
    → a < 256
    → b < 256
    → c < 256
    → d < 256
    → to4 (uint32_to_ip (ip_to_uint32 (a ∷ b ∷ c ∷ d ∷ []))) ≡ a ∷ b ∷ c ∷ d ∷ []
unfolding uint32_to_ip to4 ip_to_uint32
to4-uint32_to_ip a b c d ha hb hc hd = rw (word_of_bytes-sum a b c d ha hb hc hd) (ground arith)

-- The word is that of the four-byte form.
pub ip_to_uint32-to4 :
    (ip : Bytes) (a b d e : ℕ)
    → to4 ip ≡ a ∷ b ∷ d ∷ e ∷ []
    → ip_to_uint32 ip ≡ ip_to_uint32 (a ∷ b ∷ d ∷ e ∷ [])
unfolding ip_to_uint32 to4
ip_to_uint32-to4 ip a b d e t = rw t refl
