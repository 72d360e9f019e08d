-- ===== src/Mac/Distinct.antt =====
-- The MAC addresses of one switch (pkg/internal/bpfmap/mac.go) do not collide.
use Prim.Native.Nat.{bit_and, bit_xor}
use connector.Base.{
  ℕ, zero, suc, ◌+◌, ◌*◌, ◌-◌, ◌/◌, ◌<◌, ◌≡◌, refl, ◌≢◌, Bool, true, if◌then◌else◌, false, some, [],
  ◌∷◌, bit_or-field, ◌∙◌, ◌==◌, ==_iff, arith, u8, u16,
}
use connector.Mac.{port_mac, mgmt_mac, high_byte, mgmt_mac_id_base, port_mac_xor}

-- A test passes for every number below the bound.
passes : (ℕ → Bool) → ℕ → Bool
passes test zero = true
passes test (suc bound) = let rest = passes test bound in if test bound then rest else false

passes_each : (test : ℕ → Bool) (bound e : ℕ) → e < bound → passes test bound ≡ true → test e ≡ true
unfolding passes
passes_each test zero e lt h = absurd (omega arith)
passes_each test (suc bound) e lt h = ground (arith, passes_each test bound e)

-- The test of one fifth byte.
abbrev flips : ℕ → Bool
flips e = bit_and (bit_xor e port_mac_xor) port_mac_xor == (1 - e / 128) * 128

every_byte_flips : passes flips 256 ≡ true
unfolding passes
every_byte_flips = refl

-- The top bit of the fifth byte is the switch's, inverted.
flip : (e : ℕ) → e < 256 → bit_and (bit_xor e port_mac_xor) port_mac_xor ≡ (1 - e / 128) * 128
flip e h = (==_iff _ _).0 (passes_each flips 256 e h every_byte_flips)

high_byte-sum : (e id : ℕ) → e < 256 → id < 32768 → high_byte e id ≡ (1 - e / 128) * 128 + id / 256
unfolding high_byte
high_byte-sum e id he hid = rw (flip e he) (
    bit_or-field 7 (1 - e / 128) ((1 - e / 128) * 128) (u8 (id / 256)) (omega arith) (omega arith)
    ∙ omega arith)

-- For a switch MAC of six bytes: no port's MAC is the switch's own, two different ports have
-- different MACs, and no port's MAC is that of a management plane.
pub port_mac_distinct :
    (a b c d e f i j idx : ℕ)
    → e < 256
    → i < 4096
    → j < 4096
    → idx < 16
    → i ≢ j
    → let mac = a ∷ b ∷ c ∷ d ∷ e ∷ f ∷ [] in
      (port_mac mac i ≢ some mac)
      × (port_mac mac i ≢ port_mac mac j)
      × (port_mac mac i ≢ mgmt_mac mac idx)
unfolding port_mac mgmt_mac
port_mac_distinct a b c d e f i j idx he hi hj hx ne =
    let hb = high_byte-sum e i he (omega arith) in
    let hb' = high_byte-sum e j he (omega arith) in
    let hm = high_byte-sum e (u16 (u16 mgmt_mac_id_base + u16 idx)) he (omega arith) in
    (λ p. ground (arith), λ p. ground arith, λ p. ground arith)
