-- ===== src/Examples/Prepares.antt =====
-- A PREPARE for a tap whose client hangs up before it reads the answer, and a SET_PORT_UP too early.
use connector.Base.{◌≡◌, refl, true, false, none, [], ◌∷◌, arith}
use connector.Slots.{MmappedSlots}
use connector.Switch.{World}
use connector.Text.{codes}
use connector.Tapfd.Request.{Request, request_field}
use connector.Tapfd.Response.{build_ok_line}
use connector.PortUp.{set_port_up}
use connector.Tapfd.Provider.{
  refused, port_unavailable, tapfd_error_code, Parsers, handle_tapfd_prepare,
  prepare_attach_options, send_tapfd_ok, response,
}
use connector.Tapfd.Provider.Ports.{
  handle_tapfd_set_port_up, positive_port, IsRefusal, handle_tapfd_set_port_up_refused,
}
use connector.Tapfd.Provider.Rollback.{SameOwners, is_granted, handle_tapfd_prepare-SameOwners}
use connector.Examples.Claims.{slot_with}
use connector.Examples.Attachment.{switch, start, quiet}

abbrev parsers : Parsers
parsers = record {
  parse_ip = λ _. 10 ∷ 0 ∷ 0 ∷ 9 ∷ [];
  parse_mac = λ _. none;
  parse_bool = λ _. none;
  parse_options = λ _. none;
}

abbrev request : Request
request = record {
  version = codes "TAPFD/1";
  op = codes "PREPARE";
  want_netns = false;
  entries = record { key = codes "inner_ip"; value = codes "10.0.0.9" } ∷ [];
}

abbrev taps : World
taps = record start {
  slots = record { items = λ i. record (slot_with 0) { mode = 1 }; num_slots = 3 };
}

never_told : is_granted (handle_tapfd_prepare parsers quiet switch false request taps).0 ≡ false
unfolding handle_tapfd_prepare prepare_attach_options send_tapfd_ok response request_field
    build_ok_line connector.Attach.attach connector.Attach.Validate.check_attach
    connector.Geneve.validate_transit_geneve_vni connector.Geneve.marshal_geneve_options
    connector.Geneve.write_options connector.Attach.Validate.validate_attachment_addresses
    connector.Ip.to4 connector.Ip.ip_to_uint32 connector.Attach.Validate.check_generation
    connector.Switch.Abi.require_attachment_abi connector.Attach.claim
    connector.Slots.Cas.try_allocate connector.Slots.Scan.find_free_slot connector.Attach.complete
    connector.Attach.Prepare.suppress connector.Attach.Prepare.prepare
    connector.Slots.update_slot_fields connector.Attach.Prepare.write_geneve_opts
    connector.Attach.Prepare.validate_attach_mtu connector.Attach.Prepare.move_port
    connector.Slots.get_inner_ip connector.Attach.Publish.publish connector.Stats.reset_stats
    connector.Attach.attach_output connector.Text.format_uint connector.Text.Address.mac_string
    connector.Text.Address.ip_string connector.Text.trim_space connector.Mac.get_port_mac
    connector.Mac.port_mac connector.Mac.high_byte connector.Mac.is_zero_mac
    connector.Ip.uint32_to_ip connector.Identity.floating_ip_for_attachment
never_told = refl

handle_tapfd_prepare-SameOwners_example :
    SameOwners taps (handle_tapfd_prepare parsers quiet switch false request taps).1
handle_tapfd_prepare-SameOwners_example =
    handle_tapfd_prepare-SameOwners parsers quiet switch false request taps (λ p w. refl) refl
      (omega arith) never_told

-- Port 2, which no sandbox holds.
abbrev raising : Request
raising = record request {
  op = codes "SET_PORT_UP";
  entries =
      record { key = codes "port"; value = codes "2" }
      ∷ record { key = codes "inner_ip"; value = codes "10.0.0.9" }
      ∷ [];
}

not_held :
    handle_tapfd_set_port_up parsers quiet switch true raising taps
    ≡ (refused port_unavailable, taps)
unfolding handle_tapfd_set_port_up request_field positive_port prepare_attach_options
    connector.Text.parse_uint set_port_up tapfd_error_code connector.PortUp.Validate.check_port
    connector.Switch.Abi.require_deferred_attachment_abi connector.Switch.Abi.require_attachment_abi
    connector.PortUp.set_slot_up connector.Slots.get_inner_ip
    connector.PortUp.Validate.check_port_up connector.Attach.Validate.validate_attachment_addresses
    connector.Ip.to4 connector.Ip.ip_to_uint32 connector.Geneve.validate_transit_geneve_vni
    connector.Geneve.marshal_geneve_options connector.Geneve.write_options
not_held = refl

is_refusal : IsRefusal (handle_tapfd_set_port_up parsers quiet switch true raising taps).0
is_refusal = rw not_held (λ e. absurd (ground (arith, e)))

handle_tapfd_set_port_up_refused_example :
    (handle_tapfd_set_port_up parsers quiet switch true raising taps).1 ≡ taps
handle_tapfd_set_port_up_refused_example =
    handle_tapfd_set_port_up_refused parsers quiet switch true raising taps (λ p w. refl) is_refusal
