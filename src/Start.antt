-- ===== src/Start.antt =====
-- The MTU and return-route decisions of a start (pkg/vswitch/lifecycle.go). The kernel's answer for the
-- transit device's MTU is an argument.
pub mod Mtu
pub mod Routes
pub mod Cleanup
pub mod Reserved
use connector.Base.{
  ℕ, ◌+◌, ◌-◌, ◌*◌, ◌/◌, ◌^◌, Bool, true, false, ◌||◌, Option, none, some, List, [], ◌∷◌, Result,
  ok, err, ltb, ◌==◌, if◌then◌else◌, Bytes, ℤ, pos, negsuc, u32,
}
use connector.Ip.{to4, is_nil, ip_to_uint32}
use connector.Geneve.{geneve_locator_tlv, geneve_tlv_locator_wire_len, max_geneve_opts_len}
use connector.Attach.Prepare.{geneve_ip_overhead, geneve_eth_overhead}
use connector.Config.{Config}

pub data StartError : Type 0 where
  transit_mtu_too_small device_mtu_unknown device_mtu_too_small : StartError

unfoldable pub base_overhead : Bool → ℕ
base_overhead encap_eth = if encap_eth then geneve_eth_overhead else geneve_ip_overhead

-- Automatic mode reserves the protocol's maximum.
unfoldable pub options_overhead : Config → ℕ
options_overhead c =
    if c.transit_dev_mtu_auto
    then max_geneve_opts_len
    else if c.geneve_locator == geneve_locator_tlv
    then geneve_tlv_locator_wire_len
    else 0

unfoldable pub required_mtu : Config → ℕ → ℕ
unfolding base_overhead options_overhead
required_mtu c port_mtu = port_mtu + base_overhead c.geneve_encap_eth + options_overhead c

abbrev pub check_device : Option ℕ → ℕ → Result StartError (Unit {0})
check_device none required = err device_mtu_unknown
check_device (some mtu) required = if ltb mtu required then err device_mtu_too_small else ok tt

-- A configured MTU that is positive is compared; otherwise the device's own is.
abbrev pub check_configured : ℤ → Option ℕ → ℕ → Result StartError (Unit {0})
check_configured (negsuc _) device required = check_device device required
check_configured (pos n) device required =
    if n == 0
    then check_device device required
    else if ltb n required
    then err transit_mtu_too_small
    else ok tt

unfoldable pub resolve_transit_mtu : Option ℕ → Config → ℕ → Result StartError (Unit {0}) × Config
unfolding required_mtu
resolve_transit_mtu device c port_mtu =
    let required = required_mtu c port_mtu in
    if c.transit_dev_mtu_auto
    then (ok tt, record c { transit_dev_mtu = pos required })
    else (check_configured c.transit_dev_mtu device required, c)

pub record Net : Type 0 where
  pub ip : ℕ
  pub prefix : ℕ

-- `u & MaskToUint32(CIDRMask(prefix, 32))`: a mask of `prefix` leading ones clears the bits below them.
abbrev pub masked : ℕ → ℕ → ℕ
masked prefix u = u / 2 ^ (32 - prefix) * 2 ^ (32 - prefix)

abbrev pub second_net : ℕ → ℕ → ℕ → List Net
second_net prefix start end = if end == start then [] else record { ip = end; prefix = prefix } ∷ []

unfoldable pub floating_return_nets : Bytes → ℕ → List Net
floating_return_nets base bits =
    let prefix = 20 - bits in
    let u = ip_to_uint32 base in
    let span = 2 ^ (12 + bits) in
    let end = u + span - 1 in
    if is_nil (to4 base) || ltb 20 bits
    then []
    else if ltb 4294967295 end
    then []
    else record { ip = masked prefix u; prefix = prefix }
      ∷ second_net prefix (masked prefix u) (masked prefix (u32 end))
