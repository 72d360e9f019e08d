-- ===== src/Attach/Options.antt =====
-- AttachOptions and AttachOutput of pkg/vswitch/types.go.
use connector.Base.{ℕ, Bool, Option, List, Bytes}
use connector.Geneve.{GeneveOption, GeneveOptsValue}
use connector.Switch.{Device}

-- `[]` is the nil address.
pub record AttachOptions : Type 0 where
  pub port : ℕ
  pub generation : ℕ
  pub to_netns : Bytes
  pub inner_ip : Bytes
  pub transit_gateway_ip : Bytes
  pub transit_geneve_vni : ℕ
  pub transit_geneve_opts : List GeneveOption
  pub transit_mac : Bytes
  pub admin_down : Bool
  pub skip_device : Bool

abbrev pub port_kind_veth : ℕ
port_kind_veth = 0

abbrev pub port_kind_tap : ℕ
port_kind_tap = 1

-- What the overlay branch of the output reports.
pub record Overlay : Type 0 where
  pub gateway : Bytes
  pub geneve_port : ℕ
  pub geneve_locator : ℕ
  pub transit_geneve_vni : ℕ
  pub wire_geneve_vni : ℕ
  pub geneve_opts_len : ℕ

-- Addresses stay words. `overlay` is none for TransitType "none".
pub record AttachOutput : Type 0 where
  pub port : ℕ
  pub admin_down : Bool
  pub generation : ℕ
  pub generation_bits : ℕ
  pub port_dev : Device
  pub port_netns : Bytes
  pub port_mac : Option Bytes
  pub inner_ip : Bytes
  pub floating_ip : ℕ
  pub mode : ℕ
  pub overlay : Option Overlay

-- What the validation computes before a slot is claimed.
pub record Prepared : Type 0 where
  pub value : GeneveOptsValue
  pub total_len : ℕ
  pub inner_ip : ℕ
