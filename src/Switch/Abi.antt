-- ===== src/Switch/Abi.antt =====
-- What an attachment operation requires of the switch that it opened (pkg/vswitch/attach.go and
-- port_up.go), and how it reads the locator from the configuration (pkg/vswitch/geneve.go).
use connector.Base.{
  ℕ, ◌/◌, ◌%◌, Bool, Option, none, some, Result, ok, ensure, ◌>>◌, ◌==◌, if◌then◌else◌,
}
use connector.Geneve.{GeneveTlvLocator, geneve_locator_tlv}
use connector.Switch.{
  SwitchConfig, SwitchContext, SwitchError, no_port_up_support, no_options_map,
  no_deferred_up_support,
}

-- `Features & SwitchFPortUp`, bit 0.
abbrev pub has_port_up : SwitchConfig → Bool
has_port_up cfg = cfg.features % 2 == 1

-- `Features & SwitchFDeferredUp`, bit 1.
abbrev pub has_deferred_up : SwitchConfig → Bool
has_deferred_up cfg = cfg.features / 2 % 2 == 1

unfoldable pub require_attachment_abi : SwitchContext → Result SwitchError (Unit {0})
require_attachment_abi s = do
  ensure (has_port_up s.cfg) no_port_up_support
  ensure s.has_geneve_opts no_options_map
  ok tt

unfoldable pub require_deferred_attachment_abi : SwitchContext → Result SwitchError (Unit {0})
unfolding require_attachment_abi
require_deferred_attachment_abi s = do
  require_attachment_abi s
  ensure (has_deferred_up s.cfg) no_deferred_up_support
  ok tt

abbrev pub geneve_locator_from_config : SwitchConfig → ℕ
geneve_locator_from_config cfg = cfg.geneve_locator

abbrev pub geneve_tlv_locator_from_config : SwitchConfig → GeneveTlvLocator
geneve_tlv_locator_from_config cfg = record {
  class = cfg.geneve_tlv_class;
  type = cfg.geneve_tlv_type;
}

-- The `tlvLocator` argument that Attach and SetPortUp build.
abbrev pub tlv_locator : SwitchConfig → Option GeneveTlvLocator
tlv_locator cfg =
    if geneve_locator_from_config cfg == geneve_locator_tlv
    then some (geneve_tlv_locator_from_config cfg)
    else none
