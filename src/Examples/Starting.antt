-- ===== src/Examples/Starting.antt =====
-- A start whose last step, the filter on the transit device, fails.
use connector.Base.{zero, suc, ◌≡◌, refl, [], err, true, false, some, none}
use connector.Ip.{to4, ip_to_uint32}
use connector.Config.{validate_reserved, validate_geneve, switch_config}
use connector.Config.Services.{validate_mgmt_services, check_services, contains}
use connector.MgmtService.{NatMaps, write_mgmt_services}
use connector.Slots.{MmappedSlots, init_slot_reserved}
use connector.Slots.Reserved.{init_bpf_slots_reserved}
use connector.Start.{resolve_transit_mtu, floating_return_nets}
use connector.Start.Cleanup.{no_resources, UndoAnswers, retry_cleanup}
use connector.Start.Reserved.Stages.{
  Run, StartAnswers, PlaneAnswers, TransitAnswers, transit_failed,
}
use connector.Start.Reserved.{start_reserved, created, bring_up}
use connector.Start.Reserved.Steps.{create_planes}
use connector.Start.Reserved.Fails.{NotesDevices}
use connector.Start.Reserved.Undo.{Undoes}
use connector.Start.Reserved.Rollback.{start_reserved_failed}
use connector.Examples.Claims.{slot_with}
use connector.Examples.Settings.{settings}

abbrev undo : UndoAnswers
undo = record {
  move_back = λ i. elim i [ zero ↦ false | suc _ ↦ true ];
  delete_dummy = λ i. true;
  delete_mgmt = λ d i. true;
  unpin = true;
}

abbrev plane : PlaneAnswers
plane = record {
  netns_opens = true;
  create_veth = true;
  raise_veth = true;
  ifindex = 12;
  ifindex_read = true;
  attach_tc = true;
  link_up = true;
  add_route = λ _. true;
  mtu = some 1500;
}

abbrev transit : TransitAnswers
transit = record {
  is_down = some true;
  device_mtu = some 9000;
  caller_netns = true;
  move = true;
  set_mtu = true;
  link_up = true;
  dhcp = none;
  update_config = true;
  update_metadata = true;
  attach_tc = false;
}

abbrev answers : StartAnswers
answers = record {
  switch_netns = true;
  load_objects = true;
  pin_maps = true;
  create_dummy = true;
  lookup_dummy = true;
  add_clsact = true;
  add_block_filter = true;
  write_config = true;
  write_metadata = true;
  mmap = true;
  plane = λ _. plane;
  nat = record { fwd_fails = λ _. false; rev_fails = λ _. false };
  peer_mtu = λ _. none;
  transit = transit;
  undo = undo;
}

abbrev new_slots : MmappedSlots
new_slots = record { items = λ i. slot_with 0; num_slots = 16 }

abbrev no_entries : NatMaps
no_entries = record { fwd = []; rev = [] }

answers-NotesDevices : NotesDevices answers
answers-NotesDevices = record {
  lookup = refl;
  clsact = refl;
  filter = refl;
  raised = λ i. refl;
  ifindex = λ i. refl;
}

undo-Undoes : Undoes undo
unfolding retry_cleanup
undo-Undoes = record {
  moves_back = refl;
  deletes_dummy = refl;
  deletes_mgmt = λ i. refl;
  unpins = refl;
}

abbrev outcome : Run
outcome = (start_reserved answers false true true none created settings none new_slots no_entries).1

fails :
    start_reserved answers false true true none created settings none new_slots no_entries
    ≡ (err transit_failed, outcome)
unfolding start_reserved validate_reserved bring_up create_planes resolve_transit_mtu
    init_bpf_slots_reserved write_mgmt_services validate_mgmt_services check_services contains
    validate_geneve to4 ip_to_uint32 floating_return_nets switch_config init_slot_reserved
fails = refl

start_reserved_failed_example : outcome.made ≡ no_resources
start_reserved_failed_example =
    start_reserved_failed answers false true none created settings none new_slots no_entries
      transit_failed outcome answers-NotesDevices undo-Undoes fails
