-- ===== src/Config.antt =====
-- pkg/vswitch/config.go: the configuration of a switch and its validation, and `UpdateSwitchConfig` of
-- pkg/vswitch/slot.go, which turns it into what the dataplane reads. A `net.IP` is its
-- bytes, a nil slice or an empty string is `[]`. Parsing is not modelled.
pub mod Services
pub mod Window
pub mod Match
use connector.Base.{
  ℕ, ◌+◌, ◌-◌, ◌^◌, Bool, true, false, not, ◌&&◌, ◌||◌, Option, none, some, List, Result, ok, err,
  ensure, refuse, ◌++◌, ◌>>=◌, ◌>>◌, ltb, leb, ◌==◌, if◌then◌else◌, Bytes, ℤ, pos, negsuc, u32,
  length, take,
}
use connector.Base
use connector.Ip.{to4, is_nil, ip_to_uint32}
use connector.Identity.{max_ports}
use connector.Geneve.{
  GeneveTlvLocator, valid, geneve_locator_port, geneve_locator_vni, geneve_locator_tlv,
  default_geneve_port_base,
}
use connector.Slots.{zero_mac}
use connector.Switch.{SwitchConfig}
use connector.Attach.Options.{port_kind_tap}
use Services.{MgmtExtract, MgmtService, ConfigError, validate_mgmt_services}
use connector.Config.Services as Error

pub record Config : Type 0 where
  pub name : Bytes
  pub switch_netns : Bytes
  pub port_netns : Bytes
  pub num_ports : ℕ
  pub mac_addr : Bytes
  pub floating_ip_base : Bytes
  pub generation_bits : ℕ
  pub mgmt_extracts : List MgmtExtract
  pub mgmt_services : List MgmtService
  pub transit_dev : Bytes
  pub transit_nexthop : Bytes
  pub transit_dev_mtu : ℤ
  pub transit_dev_mtu_auto : Bool
  pub geneve_port_base : ℕ
  pub geneve_locator : ℕ
  pub geneve_tlv_locator : Option GeneveTlvLocator
  pub geneve_encap_eth : Bool
  pub mtu : ℤ
  pub port_mac : Bytes
  pub default_mode : ℕ
  pub geneve_port_base_defaulted : Bool

unfoldable pub apply_geneve_defaults : Config → Config
apply_geneve_defaults c =
    if c.geneve_port_base == 0
    then record c { geneve_port_base = default_geneve_port_base; geneve_port_base_defaulted = true }
    else c

abbrev pub is_none : {A : Type 0} → Option A → Bool
is_none none = true
is_none (some _) = false

-- `uint32(base) + NumPorts - 1`.
abbrev pub last_port : Config → ℕ
last_port c = u32 (u32 (c.geneve_port_base + c.num_ports) + 4294967295)

unfoldable pub validate_geneve : Config → Result ConfigError (Unit {0})
validate_geneve c =
    if not (valid c.geneve_locator)
    then err Error.unknown_locator
    else if c.geneve_locator == geneve_locator_port
    then if not (is_none c.geneve_tlv_locator)
      then err Error.tlv_without_tlv_locator
      else if ltb 65535 (last_port c)
      then err Error.ports_exceed_udp
      else ok tt
    else if c.geneve_locator == geneve_locator_vni
    then if not (is_none c.geneve_tlv_locator)
      then err Error.tlv_without_tlv_locator
      else if not (c.geneve_port_base == default_geneve_port_base)
      then err Error.port_base_fixed
      else ok tt
    else if is_none c.geneve_tlv_locator
    then err Error.tlv_locator_required
    else if not (c.geneve_port_base == default_geneve_port_base)
    then err Error.port_base_fixed
    else ok tt

-- `base+span-1 > ^uint32(0)` in 64 bits; bits are at most 20 here.
abbrev pub window_overflows : Config → Bool
window_overflows c =
    ltb 4294967295 (ip_to_uint32 c.floating_ip_base + 2 ^ (12 + c.generation_bits) - 1)

abbrev pub bad_mtu : ℤ → Bool
bad_mtu (negsuc _) = true
bad_mtu (pos n) = ltb 65535 n

abbrev pub max_mgmt_cidr_per_slot : ℕ
max_mgmt_cidr_per_slot = 3

-- The checks after the defaults.
unfoldable pub check_base : Config → Result ConfigError (Unit {0})
check_base c = do
  refuse (is_nil c.name) Error.name_required
  refuse (is_nil c.switch_netns) Error.switch_netns_required
  refuse (c.num_ports == 0 || ltb max_ports c.num_ports) Error.bad_ports
  refuse (not (length c.mac_addr == 6)) Error.bad_mac
  refuse (is_nil c.floating_ip_base || is_nil (to4 c.floating_ip_base)) Error.floating_base_not_ipv4
  refuse (ltb 20 c.generation_bits) Error.bad_generation_bits
  refuse (window_overflows c) Error.floating_window_overflows
  refuse (ltb max_mgmt_cidr_per_slot (length c.mgmt_extracts)) Error.too_many_extracts
  validate_mgmt_services c.mgmt_extracts c.mgmt_services
  validate_geneve c
  refuse (bad_mtu c.mtu) Error.bad_mtu
  ok tt

-- It leaves the configuration with its defaults, whatever the result.
unfoldable pub validate_base : Config → Result ConfigError (Unit {0}) × Config
unfolding check_base apply_geneve_defaults
validate_base c = let c' = apply_geneve_defaults c in (check_base c', c')

unfoldable pub validate : Config → Result ConfigError (Unit {0}) × Config
unfolding validate_base
validate c =
    let (r, c') = validate_base c in
    (
      r
          >> refuse (is_nil c'.port_netns && not (c'.default_mode == port_kind_tap))
              Error.port_netns_required,
      c',
    )

unfoldable pub validate_reserved : Config → Result ConfigError (Unit {0}) × Config
unfolding validate_base
validate_reserved c = validate_base c

abbrev pub tlv_class_of : Option GeneveTlvLocator → ℕ
tlv_class_of none = 0
tlv_class_of (some l) = l.class

abbrev pub tlv_type_of : Option GeneveTlvLocator → ℕ
tlv_type_of none = 0
tlv_type_of (some l) = l.type

-- What `UpdateSwitchConfig` writes; the features are PORT_F_UP and DEFERRED_UP.
abbrev pub written : Config → SwitchConfig
written c = record {
  switch_mac = take 6 (c.mac_addr ++ zero_mac);
  n_ports = c.num_ports;
  floating_ip_base = ip_to_uint32 c.floating_ip_base;
  geneve_port_base = c.geneve_port_base;
  geneve_encap_eth = if c.geneve_encap_eth then 1 else 0;
  transit_nexthop = if is_nil c.transit_nexthop then 0 else ip_to_uint32 c.transit_nexthop;
  port_mac = if leb 6 (length c.port_mac) then take 6 c.port_mac else zero_mac;
  generation_bits = c.generation_bits;
  features = 3;
  geneve_locator = c.geneve_locator;
  geneve_tlv_type = tlv_type_of c.geneve_tlv_locator;
  geneve_tlv_class = tlv_class_of c.geneve_tlv_locator;
}

-- The defaults are applied first.
unfoldable pub switch_config : Config → SwitchConfig
unfolding apply_geneve_defaults
switch_config c = written (apply_geneve_defaults c)
