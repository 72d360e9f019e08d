-- ===== src/Examples/Attachment.antt =====
-- Attach on a switch with three free ports, and what a takeover does to it.
use connector.Base.{ℕ, ◌≡◌, refl, ◌⊎◌, inl, inr, [], ◌∷◌, ok, err, true, false, some}
use connector.Slots.{MmappedSlots, SlotItem, inner_ip_reserved}
use connector.Stats.{StatsManager, zero_stats}
use connector.Switch.{
  SwitchConfig, SwitchMetadata, SwitchContext, World, Kernel, Point, Device, port_device,
  peer_device, tap_device, transit_device, SwitchError, move_device, update_options, check_mtu,
  recheck, recheck_again, commit, reset_counters, verify_owner, publish, move_failed, taken_over,
}
use connector.Geneve.{GeneveOption, GeneveOptsValue, value_of}
use connector.Attach.{claim, attach, attach_output}
use connector.Attach.Options.{AttachOptions, Prepared}
use connector.Attach.Validate.{check_attach}
use connector.Attach.Outcome.{Attached, Undone, attach-Attached, attach-Undone}
use connector.Attach.Failure.{Takeover, IsClosed, attach-IsClosed}
use connector.Examples.Claims.{three_free}

abbrev pub config : SwitchConfig
config = record {
  switch_mac = 2 ∷ 0 ∷ 0 ∷ 0 ∷ 0 ∷ 1 ∷ [];
  n_ports = 3;
  floating_ip_base = 1678770176;
  geneve_port_base = 50000;
  geneve_encap_eth = 0;
  transit_nexthop = 0;
  port_mac = 0 ∷ 0 ∷ 0 ∷ 0 ∷ 0 ∷ 0 ∷ [];
  generation_bits = 2;
  features = 3;
  geneve_locator = 0;
  geneve_tlv_type = 0;
  geneve_tlv_class = 0;
}

abbrev pub metadata : SwitchMetadata
metadata = record { switch_netns = 115 ∷ []; port_netns = 112 ∷ []; transit_dev = 116 ∷ [] }

abbrev pub switch : SwitchContext
switch = record { name = 115 ∷ []; cfg = config; meta = metadata; has_geneve_opts = true }

abbrev pub counters : StatsManager
counters = record {
  num_ports = 3;
  locked_reads = true;
  entries = λ i. zero_stats 4;
  lookup_fails = λ i. false;
  update_fails = λ i. false;
}

abbrev pub start : World
start = record { slots = three_free; geneve_opts = λ j. value_of [] false; stats = counters }

abbrev mtu_of : Device → ℕ
mtu_of transit_device = 9000
mtu_of _ = 1500

abbrev pub quiet : Kernel
quiet = record {
  options_update_fails = false;
  netns_exists = λ n. true;
  mtu = λ d. some (mtu_of d);
  move_fails = λ d. false;
  link_in_port_netns = λ d. true;
  control_lock_fails = false;
  others = λ p w. w;
}

abbrev request : AttachOptions
request = record {
  port = 2;
  generation = 3;
  to_netns = 98 ∷ [];
  inner_ip = 10 ∷ 0 ∷ 0 ∷ 9 ∷ [];
  transit_gateway_ip = [];
  transit_geneve_vni = 0;
  transit_geneve_opts = record { class = 9; type = 1; payload = [] } ∷ [];
  transit_mac = [];
  admin_down = false;
  skip_device = false;
}

abbrev prepared : Prepared
prepared = record {
  value = value_of (0 ∷ 9 ∷ 1 ∷ 0 ∷ []) false;
  total_len = 4;
  inner_ip = 167772169;
}

request_valid : check_attach switch request ≡ ok prepared
unfolding check_attach connector.Geneve.validate_transit_geneve_vni
    connector.Geneve.marshal_geneve_options connector.Geneve.write_options
    connector.Attach.Validate.validate_attachment_addresses connector.Ip.to4
    connector.Ip.ip_to_uint32 connector.Attach.Validate.check_generation
    connector.Switch.Abi.require_attachment_abi
request_valid = refl

request_runs :
    attach quiet switch request start
    ≡ (ok (attach_output switch request prepared 1 0), (attach quiet switch request start).1)
unfolding attach check_attach connector.Geneve.validate_transit_geneve_vni
    connector.Geneve.marshal_geneve_options connector.Geneve.write_options
    connector.Attach.Validate.validate_attachment_addresses connector.Ip.to4
    connector.Ip.ip_to_uint32 connector.Attach.Validate.check_generation
    connector.Switch.Abi.require_attachment_abi claim connector.Slots.Cas.try_allocate
    connector.Attach.complete connector.Attach.Prepare.suppress connector.Attach.Prepare.prepare
    connector.Slots.update_slot_fields connector.Attach.Prepare.write_geneve_opts
    connector.Attach.Prepare.validate_attach_mtu connector.Attach.Prepare.move_port
    connector.Slots.get_inner_ip connector.Attach.Publish.publish connector.Stats.reset_stats
request_runs = refl

attach-Attached_example :
    Attached switch request start
      (attach_output switch request prepared 1 0)
      (attach quiet switch request start).1
attach-Attached_example =
    attach-Attached quiet switch request start (attach quiet switch request start).1
      (attach_output switch request prepared 1 0) (λ p w. refl) request_runs

-- A kernel that cannot move the device.
abbrev pub stuck : Kernel
stuck = record quiet { move_fails = λ d. true }

stuck_runs :
    attach stuck switch request start ≡ (err move_failed, (attach stuck switch request start).1)
unfolding attach check_attach connector.Geneve.validate_transit_geneve_vni
    connector.Geneve.marshal_geneve_options connector.Geneve.write_options
    connector.Attach.Validate.validate_attachment_addresses connector.Ip.to4
    connector.Ip.ip_to_uint32 connector.Attach.Validate.check_generation
    connector.Switch.Abi.require_attachment_abi claim connector.Slots.Cas.try_allocate
    connector.Attach.complete connector.Attach.Prepare.suppress connector.Attach.Prepare.prepare
    connector.Slots.update_slot_fields connector.Attach.Prepare.write_geneve_opts
    connector.Attach.Prepare.validate_attach_mtu connector.Attach.Prepare.move_port
    connector.Slots.get_inner_ip connector.Attach.Publish.publish connector.Stats.reset_stats
    connector.Attach.Prepare.rollback_claim
stuck_runs = refl

attach-Undone_example : Undone start (attach stuck switch request start).1
attach-Undone_example =
    attach-Undone stuck switch request start (attach stuck switch request start).1 move_failed
      (λ p w. refl) stuck_runs

-- Management reserves every slot while the device is moved.
abbrev pub seize : Point → World → World
seize move_device w = record w {
  slots = record w.slots { items = λ j. record (w.slots.items j) { inner_ip = inner_ip_reserved } };
}
seize _ w = w

abbrev pub seizing : Kernel
seizing = record quiet { others = seize }

pub seizing-Takeover : Takeover seizing 1
seizing-Takeover = record { owner = owner; flags = flags; bound = bound }
  where
    owner :
        (p : Point) (w : World)
        → (((seize p w).slots.items 1).inner_ip ≡ (w.slots.items 1).inner_ip)
          ⊎ (((seize p w).slots.items 1).inner_ip ≡ inner_ip_reserved)
    owner update_options w = inl refl
    owner check_mtu w = inl refl
    owner move_device w = inr refl
    owner recheck w = inl refl
    owner recheck_again w = inl refl
    owner commit w = inl refl
    owner reset_counters w = inl refl
    owner verify_owner w = inl refl
    owner publish w = inl refl

    flags :
        (p : Point) (w : World)
        → (((seize p w).slots.items 1).flags ≡ (w.slots.items 1).flags)
          ⊎ (((seize p w).slots.items 1).flags ≡ 0)
    flags update_options w = inl refl
    flags check_mtu w = inl refl
    flags move_device w = inl refl
    flags recheck w = inl refl
    flags recheck_again w = inl refl
    flags commit w = inl refl
    flags reset_counters w = inl refl
    flags verify_owner w = inl refl
    flags publish w = inl refl

    bound : (p : Point) (w : World) → (seize p w).slots.num_slots ≡ w.slots.num_slots
    bound update_options w = refl
    bound check_mtu w = refl
    bound move_device w = refl
    bound recheck w = refl
    bound recheck_again w = refl
    bound commit w = refl
    bound reset_counters w = refl
    bound verify_owner w = refl
    bound publish w = refl

seized_runs :
    attach seizing switch request start ≡ (err taken_over, (attach seizing switch request start).1)
unfolding attach check_attach connector.Geneve.validate_transit_geneve_vni
    connector.Geneve.marshal_geneve_options connector.Geneve.write_options
    connector.Attach.Validate.validate_attachment_addresses connector.Ip.to4
    connector.Ip.ip_to_uint32 connector.Attach.Validate.check_generation
    connector.Switch.Abi.require_attachment_abi claim connector.Slots.Cas.try_allocate
    connector.Attach.complete connector.Attach.Prepare.suppress connector.Attach.Prepare.prepare
    connector.Slots.update_slot_fields connector.Attach.Prepare.write_geneve_opts
    connector.Attach.Prepare.validate_attach_mtu connector.Attach.Prepare.move_port
    connector.Slots.get_inner_ip connector.Attach.Publish.publish connector.Stats.reset_stats
    connector.Attach.Prepare.rollback_claim
seized_runs = refl

request_claims :
    claim switch request 167772169 start ≡ (ok 1, (claim switch request 167772169 start).1)
unfolding claim connector.Slots.Cas.try_allocate
request_claims = refl

attach-IsClosed_example : IsClosed 1 (attach seizing switch request start).1
attach-IsClosed_example =
    attach-IsClosed seizing switch request prepared 1 start (claim switch request 167772169 start).1
      (attach seizing switch request start).1 taken_over request_valid request_claims
      seizing-Takeover seized_runs
