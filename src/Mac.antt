-- ===== src/Mac.antt =====
-- pkg/internal/bpfmap/mac.go: the MAC addresses that a switch derives. `none` is the panic of an
-- index out of range, on a switch MAC shorter than five bytes.
pub mod Distinct
use Prim.Native.Nat.{bit_and, bit_xor}
use mathlib.Core.Option
use connector.Base.{
  ℕ, ◌+◌, ◌/◌, Bool, true, false, ◌&&◌, Option, none, some, List, [], ◌∷◌, ◌++◌, bit_or, ◌==◌,
  if◌then◌else◌, Bytes, u8, u16, take, replicate,
}

abbrev pub port_mac_xor : ℕ
port_mac_xor = 0x80

abbrev pub mgmt_mac_id_base : ℕ
mgmt_mac_id_base = 0x7FF0

-- The two low bytes that both derivations share.
unfoldable pub high_byte : ℕ → ℕ → ℕ
high_byte e id = bit_or (bit_and (bit_xor e port_mac_xor) port_mac_xor) (u8 (id / 256))

unfoldable pub port_mac : Bytes → ℕ → Option Bytes
unfolding high_byte
port_mac (a ∷ b ∷ c ∷ d ∷ e ∷ _) id = some (a ∷ b ∷ c ∷ d ∷ high_byte e id ∷ u8 id ∷ [])
port_mac _ id = none

unfoldable pub mgmt_mac : Bytes → ℕ → Option Bytes
unfolding port_mac
mgmt_mac mac idx = port_mac mac (u16 (u16 mgmt_mac_id_base + u16 idx))

unfoldable pub port_mac_fixed : Bytes → Option Bytes
unfolding port_mac
port_mac_fixed mac = port_mac mac 1

unfoldable pub is_zero_mac : Bytes → Bool
is_zero_mac [] = true
is_zero_mac (b ∷ bs) = b == 0 && is_zero_mac bs

unfoldable pub get_port_mac : Bytes → Bytes → ℕ → Option Bytes
unfolding port_mac is_zero_mac
get_port_mac switch_mac fixed id =
    if is_zero_mac fixed then port_mac switch_mac id else some (take 6 (fixed ++ replicate 6 0))
