-- ===== src/Examples/Settings.antt =====
-- A configuration, its validation, and the start that it gives.
use connector.Base.{
  ◌≡◌, refl, ◌≢◌, inl, ◌+◌, ◌*◌, ◌^◌, ◌≤◌, ◌<◌, arith, [], ◌∷◌, ok, true, false, some, none, pos,
}
use connector.Ip.{to4, ip_to_uint32}
use connector.Identity.{floating_ip_for_attachment}
use connector.Attach.Prepare.{compare_mtu}
use connector.Config.{Config, apply_geneve_defaults, validate_base, validate_geneve, switch_config}
use connector.Config.Services.{validate_mgmt_services, check_services, contains}
use connector.Config.Window.{validate_base-floating}
use connector.Config.Match.{
  Agrees, validate_config_match, validate_config_match-Agrees, validate_config_match_own,
  metadata_of,
}
use connector.Start.{resolve_transit_mtu, base_overhead, floating_return_nets}
use connector.Start.Mtu.{resolve_transit_mtu-attach}
use connector.Start.Routes.{IsCovered, floating_return_nets-IsCovered}

-- 100.64.0.0 with two generation bits and one service on a /24.
abbrev pub settings : Config
settings = record {
  name = 115 ∷ [];
  switch_netns = 110 ∷ [];
  port_netns = 112 ∷ [];
  num_ports = 16;
  mac_addr = 2 ∷ 0 ∷ 0 ∷ 0 ∷ 0 ∷ 1 ∷ [];
  floating_ip_base = 100 ∷ 64 ∷ 0 ∷ 0 ∷ [];
  generation_bits = 2;
  mgmt_extracts =
      record {
        netns = [];
        dev = 109 ∷ [];
        service_routes = record { ip = 10 ∷ 1 ∷ 2 ∷ 0 ∷ []; mask = 255 ∷ 255 ∷ 255 ∷ 0 ∷ [] } ∷ [];
      }
      ∷ [];
  mgmt_services =
      record {
        vip = 10 ∷ 1 ∷ 2 ∷ 9 ∷ [];
        vport = 80;
        target_ip = 127 ∷ 0 ∷ 0 ∷ 1 ∷ [];
        target_port = 8080;
      }
      ∷ [];
  transit_dev = 116 ∷ [];
  transit_nexthop = [];
  transit_dev_mtu = pos 0;
  transit_dev_mtu_auto = true;
  geneve_port_base = 0;
  geneve_locator = 0;
  geneve_tlv_locator = none;
  geneve_encap_eth = false;
  mtu = pos 1500;
  port_mac = [];
  default_mode = 0;
  geneve_port_base_defaulted = false;
}

accepted : validate_base settings ≡ (ok tt, apply_geneve_defaults settings)
unfolding validate_base validate_mgmt_services check_services contains validate_geneve to4
    ip_to_uint32
accepted = refl

base_word : ip_to_uint32 (100 ∷ 64 ∷ 0 ∷ 0 ∷ []) ≡ 1681915904
unfolding ip_to_uint32
base_word = refl

validate_base-floating_example :
    let base = (switch_config settings).floating_ip_base in
    (base ≤ floating_ip_for_attachment base 3 1)
    × (floating_ip_for_attachment base 3 1
        < base + 2 ^ (switch_config settings).generation_bits * 4096)
    × (floating_ip_for_attachment base 3 1 ≢ floating_ip_for_attachment base 4 1)
unfolding switch_config
validate_base-floating_example =
    validate_base-floating settings (apply_geneve_defaults settings) 3 1 4 1 accepted (omega arith)
      (omega arith) (omega arith) (omega arith) (inl (λ e. absurd (omega arith)))

locator_accepted : validate_geneve (apply_geneve_defaults settings) ≡ ok tt
unfolding validate_geneve apply_geneve_defaults
locator_accepted = refl

base_short : to4 settings.floating_ip_base ≡ 100 ∷ 64 ∷ 0 ∷ 0 ∷ []
unfolding to4
base_short = refl

restarted : validate_config_match settings (switch_config settings) (metadata_of settings) ≡ ok tt
restarted =
    validate_config_match_own settings 100 64 0 0 locator_accepted base_short (omega arith)
      (omega arith) (omega arith) (omega arith)

validate_config_match-Agrees_example :
    Agrees (apply_geneve_defaults settings) (switch_config settings) (metadata_of settings)
validate_config_match-Agrees_example =
    validate_config_match-Agrees settings (switch_config settings) (metadata_of settings) restarted

mtu_settled :
    resolve_transit_mtu none settings 1500 ≡ (ok tt, record settings { transit_dev_mtu = pos 1614 })
unfolding resolve_transit_mtu
mtu_settled = refl

resolve_transit_mtu-attach_example :
    compare_mtu (base_overhead false + 64) (some 1400) (some 1614) ≡ ok tt
resolve_transit_mtu-attach_example =
    resolve_transit_mtu-attach none settings (record settings { transit_dev_mtu = pos 1614 }) 1500
      1400 64 refl mtu_settled (omega arith) (omega arith)

floating_return_nets-IsCovered_example :
    IsCovered
      (floating_ip_for_attachment (ip_to_uint32 (100 ∷ 64 ∷ 0 ∷ 7 ∷ [])) 4095 3)
      (floating_return_nets (100 ∷ 64 ∷ 0 ∷ 7 ∷ []) 2)
unfolding ip_to_uint32 to4
floating_return_nets-IsCovered_example =
    floating_return_nets-IsCovered (100 ∷ 64 ∷ 0 ∷ 7 ∷ []) 2 4095 3 refl (omega arith) (omega arith)
      (omega arith) (omega arith)
