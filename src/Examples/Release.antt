-- ===== src/Examples/Release.antt =====
-- The release of a switch of three ports.
use connector.Base.{◌≡◌, refl, ◌≤◌, ◌==◌, arith, [], ok, true, false, if◌then◌else◌}
use connector.Slots.{MmappedSlots, get_inner_ip, update_slot_fields}
use connector.Slots.Cas.{try_reserve}
use connector.Stop.{
  StopKernel, missing, validate_all_released, count_ports_with_devices, reserve_free_slots,
  reserve_all_slots, delete_port_interfaces, collect_port_interfaces,
}
use connector.Stop.Release.{release_ports, ReleaseOutput}
use connector.Stop.Released.{release_ports-validates}
use connector.Examples.Claims.{slot_with}

abbrev agreeable : StopKernel
agreeable = record {
  lock_fails = false;
  netns_fails = false;
  del_link = λ i. missing;
  has_index = true;
  del_index = λ i. missing;
}

abbrev mixed : MmappedSlots
mixed = record { items = λ i. slot_with (if i == 0 then 10 else 0); num_slots = 3 }

abbrev all_three : ReleaseOutput
all_three = record { released = 3; total = 3; remaining = 0 }

force_runs :
    release_ports agreeable true 3 [] [] mixed
    ≡ (ok all_three, (release_ports agreeable true 3 [] [] mixed).1)
unfolding release_ports delete_port_interfaces collect_port_interfaces reserve_free_slots
    connector.Stop.reserve_pass get_inner_ip try_reserve reserve_all_slots update_slot_fields
    count_ports_with_devices
force_runs = refl

bound_kept : 3 ≤ (release_ports agreeable true 3 [] [] mixed).1.num_slots
unfolding release_ports delete_port_interfaces collect_port_interfaces reserve_free_slots
    connector.Stop.reserve_pass get_inner_ip try_reserve reserve_all_slots update_slot_fields
    count_ports_with_devices
bound_kept = omega arith

release_ports-validates_example :
    (validate_all_released (release_ports agreeable true 3 [] [] mixed).1 3 ≡ ok tt)
    × (all_three.remaining ≡ 0)
    × (all_three.released ≡ count_ports_with_devices mixed 3)
release_ports-validates_example =
    release_ports-validates agreeable true 3 mixed (release_ports agreeable true 3 [] [] mixed).1
      all_three (omega arith) bound_kept (omega arith) force_runs
