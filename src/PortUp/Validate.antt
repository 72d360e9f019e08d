-- ===== src/PortUp/Validate.antt =====
-- PortUpOptions of pkg/vswitch/types.go and the checks of SetPortUp (pkg/vswitch/port_up.go).
use connector.Base.{ℕ, ◌||◌, List, Result, ok, ensure, refuse, ◌>>=◌, ◌>>◌, ltb, ◌==◌, Bytes}
use connector.Geneve.{GeneveOption, valid, marshal_geneve_options, validate_transit_geneve_vni}
use connector.Switch.{SwitchContext, SwitchError, port_out_of_range, invalid_locator}
use connector.Switch.Abi.{geneve_locator_from_config, tlv_locator, require_deferred_attachment_abi}
use connector.Attach.Options.{Prepared}
use connector.Attach.Validate.{validate_attachment_addresses, geneve}

pub record PortUpOptions : Type 0 where
  pub port : ℕ
  pub inner_ip : Bytes
  pub transit_gateway_ip : Bytes
  pub transit_geneve_vni : ℕ
  pub transit_geneve_opts : List GeneveOption
  pub transit_mac : Bytes

-- The port is compared before it is truncated.
unfoldable pub check_port : SwitchContext → PortUpOptions → Result SwitchError (Unit {0})
check_port s opts = do
  refuse (opts.port == 0 || ltb s.cfg.n_ports opts.port) port_out_of_range
  require_deferred_attachment_abi s

unfoldable pub check_port_up : SwitchContext → PortUpOptions → Result SwitchError Prepared
check_port_up s opts = do
  let locator = geneve_locator_from_config s.cfg
  ip ← validate_attachment_addresses opts.inner_ip opts.transit_gateway_ip opts.transit_mac
  ensure (valid locator) invalid_locator
  geneve (validate_transit_geneve_vni locator opts.transit_geneve_vni)
  marshalled ← geneve (marshal_geneve_options locator (tlv_locator s.cfg) opts.transit_geneve_opts)
  ok (record { value = marshalled.0; total_len = marshalled.1; inner_ip = ip })
