-- ===== src/Switch.antt =====
-- The opened switch: `switchContext` of pkg/vswitch/context.go with the configuration that the
-- dataplane reads (bpf.SwitchConfig) and the userspace metadata, the state that attachment operations
-- share with the kernel, and what the kernel answers to their calls.
pub mod Act
pub mod Abi
use connector.Base.{ℕ, Bool, Option, List, Bytes}
use connector.Slots.{MmappedSlots}
use connector.Stats.{StatsManager}
use connector.Geneve.{GeneveOptsValue}

pub record SwitchConfig : Type 0 where
  pub switch_mac : Bytes
  pub n_ports : ℕ
  pub floating_ip_base : ℕ
  pub geneve_port_base : ℕ
  pub geneve_encap_eth : ℕ
  pub transit_nexthop : ℕ
  pub port_mac : Bytes
  pub generation_bits : ℕ
  pub features : ℕ
  pub geneve_locator : ℕ
  pub geneve_tlv_type : ℕ
  pub geneve_tlv_class : ℕ

pub record SwitchMetadata : Type 0 where
  pub switch_netns : Bytes
  pub port_netns : Bytes
  pub transit_dev : Bytes

-- `has_geneve_opts` is `s.maps != nil && s.maps.GeneveOpts != nil`.
pub record SwitchContext : Type 0 where
  pub name : Bytes
  pub cfg : SwitchConfig
  pub meta : SwitchMetadata
  pub has_geneve_opts : Bool

-- What the processes that open one switch share.
pub record World : Type 0 where
  pub slots : MmappedSlots
  pub geneve_opts : ℕ → GeneveOptsValue
  pub stats : StatsManager

-- A device by the pattern of its name: `<switch>-p<n>`, `<switch>-n<n>` and `<switch>-t<n>` for a
-- port number n, and the transit device.
pub data Device : Type 0 where
  port_device peer_device tap_device : ℕ → Device
  transit_device : Device

-- The calls at which an operation enters the kernel or looks at a slot again; other processes run
-- up to them.
pub data Point : Type 0 where
  update_options check_mtu move_device recheck recheck_again commit verify_owner : Point
  publish reset_counters : Point

-- The kernel's answers, and what other processes do to the shared state up to a point.
pub record Kernel : Type 0 where
  pub options_update_fails : Bool
  pub netns_exists : Bytes → Bool
  pub mtu : Device → Option ℕ
  pub move_fails : Device → Bool
  pub link_in_port_netns : Device → Bool
  pub control_lock_fails : Bool
  pub others : Point → World → World

pub data SwitchError : Type 0 where
  invalid_locator : SwitchError
  invalid_geneve : SwitchError
  inner_ip_not_ipv4 inner_ip_free_address inner_ip_reserved_address : SwitchError
  gateway_not_ipv4 bad_transit_mac : SwitchError
  generation_without_bits generation_out_of_range : SwitchError
  no_port_up_support no_options_map no_deferred_up_support : SwitchError
  port_out_of_range port_allocated no_free_slot port_not_provisioned port_not_attached : SwitchError
  port_required already_reserved already_up : SwitchError
  options_write_failed netns_missing mtu_unknown mtu_too_small move_failed : SwitchError
  device_not_found taken_over reattached control_lock_failed still_contended owner_changed :
      SwitchError
