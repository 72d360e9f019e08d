-- ===== src/Examples/Operations.antt =====
-- SetPortUp, Detach and Reserve on slots that sandboxes hold.
use connector.Base.{
  ℕ, List, Result, ◌≡◌, refl, ◌⊎◌, inl, inr, ◌+◌, arith, [], ◌∷◌, ok, err, true, false,
}
use connector.Slots.{MmappedSlots, inner_ip_reserved}
use connector.Switch.{
  World, Kernel, Point, SwitchError, device_not_found, already_up, port_allocated, taken_over,
  update_options, check_mtu, move_device, recheck, recheck_again, commit, reset_counters,
  verify_owner, publish,
}
use connector.Geneve.{value_of}
use connector.Attach.Failure.{Takeover}
use connector.PortUp.{set_port_up}
use connector.PortUp.Validate.{PortUpOptions}
use connector.PortUp.Failure.{IsUp, SlotDown, set_port_up-IsUp, set_port_up-SlotDown}
use connector.PortUp.Outcome.{Raised, set_port_up-Raised}
use connector.Detach.{DetachOptions, detach}
use connector.Detach.Ends.{IsVacated, detach-IsVacated}
use connector.Detach.Quiet.{IsDetached, detach-IsDetached}
use connector.Reserve.{ReserveOptions, ReserveOutput, reserve}
use connector.Reserve.Force.{IsReserved, force-IsReserved, Outcome, reserve_slot_quiet}
use connector.Examples.Claims.{slot_with}
use connector.Examples.Attachment.{switch, counters, quiet, seizing, seizing-Takeover}

-- Three sandboxes hold the three slots, and are down.
abbrev busy : World
busy = record {
  slots = record { items = λ i. slot_with 77; num_slots = 3 };
  geneve_opts = λ j. value_of [] false;
  stats = counters;
}

abbrev port_up : PortUpOptions
port_up = record {
  port = 2;
  inner_ip = 10 ∷ 0 ∷ 0 ∷ 9 ∷ [];
  transit_gateway_ip = [];
  transit_geneve_vni = 5;
  transit_geneve_opts = [];
  transit_mac = [];
}

raised : set_port_up quiet switch port_up busy ≡ (ok tt, (set_port_up quiet switch port_up busy).1)
unfolding set_port_up connector.PortUp.Validate.check_port
    connector.Switch.Abi.require_deferred_attachment_abi connector.Switch.Abi.require_attachment_abi
    connector.PortUp.set_slot_up connector.Slots.get_inner_ip
    connector.PortUp.Validate.check_port_up connector.Attach.Validate.validate_attachment_addresses
    connector.Ip.to4 connector.Ip.ip_to_uint32 connector.Geneve.validate_transit_geneve_vni
    connector.Geneve.marshal_geneve_options connector.Geneve.write_options
    connector.PortUp.commit_port_up connector.Attach.Prepare.write_geneve_opts
    connector.Slots.update_slot_fields connector.Slots.Cas.try_update_inner_ip
raised = refl

set_port_up-Raised_example : Raised switch port_up busy (set_port_up quiet switch port_up busy).1
set_port_up-Raised_example =
    set_port_up-Raised quiet switch port_up busy (set_port_up quiet switch port_up busy).1
      (λ p w. refl) raised

set_port_up-IsUp_example : IsUp quiet 1 167772169 (set_port_up quiet switch port_up busy).1
unfolding connector.Ip.ip_to_uint32 connector.Ip.to4
set_port_up-IsUp_example =
    set_port_up-IsUp quiet switch port_up busy (set_port_up quiet switch port_up busy).1
      (record { owner = λ p w. inl refl; flags = λ p w. inl refl; bound = λ p w. refl }) refl raised

-- The slots are already published.
abbrev published : World
published = record busy {
  slots = record { items = λ i. record (slot_with 77) { flags = 1 }; num_slots = 3 };
}

refused : set_port_up quiet switch port_up published ≡ (err already_up, published)
unfolding set_port_up connector.PortUp.Validate.check_port
    connector.Switch.Abi.require_deferred_attachment_abi connector.Switch.Abi.require_attachment_abi
    connector.PortUp.set_slot_up connector.Slots.get_inner_ip
    connector.PortUp.Validate.check_port_up connector.Attach.Validate.validate_attachment_addresses
    connector.Ip.to4 connector.Ip.ip_to_uint32 connector.Geneve.validate_transit_geneve_vni
    connector.Geneve.marshal_geneve_options connector.Geneve.write_options
    connector.PortUp.commit_port_up connector.Attach.Prepare.write_geneve_opts
    connector.Slots.update_slot_fields connector.Slots.Cas.try_update_inner_ip
refused = refl

-- Management reserves the slot before the last look at it.
abbrev seize_last : Point → World → World
seize_last recheck_again w = record w {
  slots = record w.slots { items = λ j. record (w.slots.items j) { inner_ip = inner_ip_reserved } };
}
seize_last _ w = w

abbrev seizing_last : Kernel
seizing_last = record quiet { others = seize_last }

seizing_last-Takeover : Takeover seizing_last 1
seizing_last-Takeover = record {
  owner = λ p w. owner p w;
  flags = λ p w. flags p w;
  bound = λ p w. bound p w;
}
  where
    owner :
        (p : Point) (w : World)
        → (((seize_last p w).slots.items 1).inner_ip ≡ (w.slots.items 1).inner_ip)
          ⊎ (((seize_last p w).slots.items 1).inner_ip ≡ inner_ip_reserved)
    owner recheck_again w = inr refl
    owner update_options w = inl refl
    owner check_mtu w = inl refl
    owner move_device w = inl refl
    owner recheck w = inl refl
    owner commit w = inl refl
    owner reset_counters w = inl refl
    owner verify_owner w = inl refl
    owner publish w = inl refl

    flags :
        (p : Point) (w : World)
        → (((seize_last p w).slots.items 1).flags ≡ (w.slots.items 1).flags)
          ⊎ (((seize_last p w).slots.items 1).flags ≡ 0)
    flags recheck_again w = inl refl
    flags update_options w = inl refl
    flags check_mtu w = inl refl
    flags move_device w = inl refl
    flags recheck w = inl refl
    flags commit w = inl refl
    flags reset_counters w = inl refl
    flags verify_owner w = inl refl
    flags publish w = inl refl

    bound : (p : Point) (w : World) → (seize_last p w).slots.num_slots ≡ w.slots.num_slots
    bound recheck_again w = refl
    bound update_options w = refl
    bound check_mtu w = refl
    bound move_device w = refl
    bound recheck w = refl
    bound commit w = refl
    bound reset_counters w = refl
    bound verify_owner w = refl
    bound publish w = refl

unraised :
    set_port_up seizing_last switch port_up busy
    ≡ (err taken_over, (set_port_up seizing_last switch port_up busy).1)
unfolding set_port_up connector.PortUp.Validate.check_port
    connector.Switch.Abi.require_deferred_attachment_abi connector.Switch.Abi.require_attachment_abi
    connector.PortUp.set_slot_up connector.Slots.get_inner_ip
    connector.PortUp.Validate.check_port_up connector.Attach.Validate.validate_attachment_addresses
    connector.Ip.to4 connector.Ip.ip_to_uint32 connector.Geneve.validate_transit_geneve_vni
    connector.Geneve.marshal_geneve_options connector.Geneve.write_options
    connector.PortUp.commit_port_up connector.Attach.Prepare.write_geneve_opts
    connector.Slots.update_slot_fields connector.Slots.Cas.try_update_inner_ip
unraised = refl

set_port_up-SlotDown_example : SlotDown 1 (set_port_up seizing_last switch port_up busy).1
set_port_up-SlotDown_example =
    set_port_up-SlotDown seizing_last switch port_up busy
      (set_port_up seizing_last switch port_up busy).1 taken_over seizing_last-Takeover refl
      unraised

-- Management reserves the slot between the last look at it and its publication.
abbrev seize_behind : Point → World → World
seize_behind publish w = seize_last recheck_again w
seize_behind _ w = w

abbrev holder_of : Result SwitchError (Unit {0}) × World → List ℕ
holder_of (ok u, w) = (w.slots.items 1).inner_ip ∷ (w.slots.items 1).flags ∷ []
holder_of (err x, w) = []

-- The success leaves the slot Reserved with its flag up.
reserved_up :
    holder_of (set_port_up (record quiet { others = seize_behind }) switch port_up busy)
    ≡ inner_ip_reserved ∷ 1 ∷ []
unfolding set_port_up connector.PortUp.Validate.check_port
    connector.Switch.Abi.require_deferred_attachment_abi connector.Switch.Abi.require_attachment_abi
    connector.PortUp.set_slot_up connector.Slots.get_inner_ip
    connector.PortUp.Validate.check_port_up connector.Attach.Validate.validate_attachment_addresses
    connector.Ip.to4 connector.Ip.ip_to_uint32 connector.Geneve.validate_transit_geneve_vni
    connector.Geneve.marshal_geneve_options connector.Geneve.write_options
    connector.PortUp.commit_port_up connector.Attach.Prepare.write_geneve_opts
    connector.Slots.update_slot_fields connector.Slots.Cas.try_update_inner_ip
reserved_up = refl

abbrev leave : DetachOptions
leave = record { port = 2; from_netns = []; skip_device = false }

left : detach quiet switch leave published ≡ (ok tt, (detach quiet switch leave published).1)
unfolding detach connector.Detach.check_detach connector.Switch.Abi.require_attachment_abi
    connector.Detach.detach_slot connector.Slots.get_inner_ip connector.Detach.return_device
    connector.Detach.finish connector.Detach.withdraw connector.Slots.update_slot_fields
    connector.Slots.Cas.try_release
left = refl

detach-IsDetached_example : IsDetached 1 published (detach quiet switch leave published).1
detach-IsDetached_example =
    detach-IsDetached quiet switch leave published (detach quiet switch leave published).1
      (λ p w. refl) left

-- The device is in a namespace that the caller does not name.
abbrev astray : Kernel
astray = record quiet { link_in_port_netns = λ d. false }

stranded : detach astray switch leave published ≡ (err device_not_found, published)
unfolding detach connector.Detach.check_detach connector.Switch.Abi.require_attachment_abi
    connector.Detach.detach_slot connector.Slots.get_inner_ip connector.Detach.return_device
    connector.Detach.finish connector.Detach.withdraw connector.Slots.update_slot_fields
    connector.Slots.Cas.try_release
stranded = refl

seized_left :
    detach seizing switch leave published ≡ (ok tt, (detach seizing switch leave published).1)
unfolding detach connector.Detach.check_detach connector.Switch.Abi.require_attachment_abi
    connector.Detach.detach_slot connector.Slots.get_inner_ip connector.Detach.return_device
    connector.Detach.finish connector.Detach.withdraw connector.Slots.update_slot_fields
    connector.Slots.Cas.try_release
seized_left = refl

detach-IsVacated_example : IsVacated 1 (detach seizing switch leave published).1
detach-IsVacated_example =
    detach-IsVacated seizing switch leave published (detach seizing switch leave published).1
      seizing-Takeover seized_left

-- Each round another sandbox comes and goes.
abbrev flicker : World → World
flicker w = record w {
  slots = record w.slots {
    items = λ j. record (w.slots.items j) { inner_ip = (w.slots.items j).inner_ip + 1 };
  };
}

abbrev seize_port : ReserveOptions
seize_port = record { port = 2; force = true }

force-IsReserved_example :
    (out : ReserveOutput) × (w' : World) × (reserve quiet switch seize_port
        (flicker ∷ flicker ∷ [])
        busy
      ≡ (ok out, w'))
    × (out.port ≡ 2)
    × IsReserved 1 w'
force-IsReserved_example =
    force-IsReserved quiet switch seize_port (flicker ∷ flicker ∷ []) busy
      ((λ w. refl), ((λ w. refl), tt)) refl (omega arith) (omega arith) (omega arith) refl

reserve_slot_quiet_example : Outcome switch (record { port = 2; force = false }) 1 0 busy
reserve_slot_quiet_example =
    reserve_slot_quiet switch (record { port = 2; force = false }) 1 0 busy (omega arith)
      (λ e. absurd (omega arith))
