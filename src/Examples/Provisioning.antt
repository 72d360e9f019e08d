-- ===== src/Examples/Provisioning.antt =====
-- Two of three ports wait for a device: a tap is made for each, and the port in use is skipped.
use connector.Base.{ℕ, ◌≡◌, refl, ◌≢◌, [], ok, true, false, none, ◌<◌, if◌then◌else◌, ◌==◌}
use connector.Slots.{MmappedSlots, get_inner_ip, update_slot_fields, inner_ip_reserved}
use connector.Slots.Cas.{try_unreserve}
use connector.Provision.{
  Provisioned, ProvisionAnswers, ProvisionOptions, SlotInfo, make_device, provision_slot, install,
  write_device, write_slot_device_info, device_info, store_planes, free_slot,
}
use connector.Provision.Loop.{provision_from, provision_ports}
use connector.Provision.Device.{DeviceAnswers, provision_tap_slot}
use connector.Provision.All.{Changed, provision_ports-Changed}
use connector.Provision.Complete.{reserved_count, provision_ports_complete}
use connector.Examples.Claims.{slot_with}

abbrev waiting : MmappedSlots
waiting = record {
  items = λ i. slot_with (if i == 1 then 10 else inner_ip_reserved);
  num_slots = 3;
}

abbrev before : Provisioned
before = record { slots = waiting; ifindex_to_slot = λ _. none }

abbrev tap_answers : ℕ → DeviceAnswers
tap_answers n = record {
  existing = none;
  create = true;
  leaves = false;
  created = n;
  lookup = true;
  clsact = true;
  delete = true;
}

abbrev answers : ProvisionAnswers
answers = record {
  has_index = true;
  port_netns = false;
  port = λ i. record {
    devices = tap_answers (if i == 0 then 21 else 22);
    update_index = true;
    races = [];
  };
}

abbrev info : SlotInfo
info = record { cidrs = []; transit_ifindex = 5; transit_ip = 9 }

abbrev every_port : ProvisionOptions
every_port = record { mode = 1; port = 0; count = 0 }

reports_two : (provision_ports answers [] info every_port 3 before).0 ≡ ok 2
unfolding provision_ports provision_from provision_slot make_device install write_device
    write_slot_device_info device_info store_planes free_slot provision_tap_slot get_inner_ip
    update_slot_fields try_unreserve
reports_two = refl

provision_ports-Changed_example :
    Changed 1
      (waiting.items 2)
      ((provision_ports answers [] info every_port 3 before).1.slots.items 2)
provision_ports-Changed_example =
    provision_ports-Changed answers [] info every_port before (λ _. refl) 2

provision_ports_complete_example :
    ((j : ℕ)
      → j < 3
      → ((provision_ports answers [] info every_port 3 before).1.slots.items j).inner_ip
        ≢ inner_ip_reserved)
    × (2 ≡ reserved_count 3 0 waiting)
provision_ports_complete_example =
    provision_ports_complete answers [] info every_port 2 before (λ _. refl) refl refl reports_two
