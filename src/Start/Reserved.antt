-- ===== src/Start/Reserved.antt =====
-- `StartReserved` of pkg/vswitch/lifecycle.go: a new switch with every slot Reserved, and the rollback of a
-- start that fails. What bpffs, netlink and the BPF maps answer is an argument; true is success.
pub mod Stages
pub mod Steps
pub mod Transit
pub mod Keeps
pub mod Fails
pub mod Undo
pub mod Rollback
use connector.Base.{
  ℕ, zero, suc, ◌+◌, Bool, true, false, not, ◌&&◌, ◌||◌, Option, none, some, List, [], ◌∷◌, ◌++◌,
  Result, ok, err, ltb, ◌==◌, if◌then◌else◌, Bytes, ℤ, pos, negsuc, length,
}
use connector.Ip.{is_nil, ip_to_uint32}
use connector.Slots.{MmappedSlots}
use connector.Slots.Reserved.{InitError, init_bpf_slots_reserved}
use connector.Switch.{SwitchConfig, SwitchMetadata}
use connector.Config.{Config, validate_reserved, switch_config}
use connector.Config.Services.{MgmtExtract, MgmtService, IpNet}
use connector.Config.Match.{MatchError, validate_config_match}
use connector.MgmtService.{
  NatMaps, UpdateFailures, Written, done, stopped, SvcError, write_mgmt_services,
}
use connector.Start.{StartError, resolve_transit_mtu, floating_return_nets}
use connector.Start.Cleanup.{Resources, no_resources, CleanupState, UndoAnswers, cleanup}
use connector.Start.Reserved.Stages.*
use connector.Start.Reserved.Steps.{
  mtu_stage, resolve_stage, check_transit_down, check_mtu_early, validate_transit_device_early,
  load_bpf, create_dummy_device, write_configuration, slots_stage, init_slots, routes_added,
  create_plane, create_planes, create_mgmt_planes, services_stage, write_services, larger,
  largest_peer, largest_mgmt, default_port_mtu, slow_path, is_zero, validate_mtu_slow_path,
}
use connector.Start.Reserved.Transit.{
  after_lease, set_nexthop, store_nexthop, with_lease, use_lease, set_transit_mtu, close_caller,
  after_move, move_device, configure_moved, configure_transit_device,
}

-- The steps behind the lock, for a new switch.
unfoldable pub bring_up : StartAnswers → Bool → Stage
bring_up k addr_auto = do
  check netns_failed k.switch_netns
  validate_transit_device_early k
  load_bpf k
  create_dummy_device k
  write_configuration k
  init_slots
  create_mgmt_planes k
  write_services k
  validate_mtu_slow_path k
  configure_transit_device k addr_auto

-- Every failure of a step runs the cleanup.
abbrev pub roll_back :
    UndoAnswers → Result StartFailure (Unit {0}) × Run → Result StartFailure (Unit {0}) × Run
roll_back u (ok _, r) = (ok tt, r)
roll_back u (err e, r) = (err e, record r { made = cleanup u r.cs r.made })

-- What `mkdir` answers.
pub data Mkdir : Type 0 where
  created exists failed : Mkdir

abbrev pub begin : Config → Option IpNet → MmappedSlots → NatMaps → Run
begin c addr slots nat = record {
  made = record no_resources { pin_dir = true };
  cs = record {
    pin_dir_created = true;
    bpf_loaded = false;
    maps_pinned = false;
    dummy_dev_created = false;
    mgmt_ifindexes = [];
    transit_moved = false;
    caller_ns = false;
  };
  cfg = c;
  transit_addr = addr;
  slots = slots;
  config = none;
  nat = nat;
}

abbrev pub unmade : Run → Run
unmade r = record r { made = no_resources }

-- The lock of a new switch is taken behind `mkdir`; its failure returns at once.
abbrev pub start_new : StartAnswers → Bool → Bool → Run → Result StartFailure (Unit {0}) × Run
start_new k addr_auto lock r =
    if lock then roll_back k.undo (bring_up k addr_auto r) else (err lock_failed, r)

abbrev pub match_stage : Result MatchError (Unit {0}) → Stage
match_stage (ok _) r = (ok tt, r)
match_stage (err _) r = (err config_differs, r)

-- `getExistingSwitch`, for a switch that opens with this configuration and metadata, or does not.
abbrev pub get_existing_switch : Option (SwitchConfig × SwitchMetadata) → Stage
get_existing_switch none r = (err open_failed, r)
get_existing_switch (some (existing, meta)) r =
    match_stage (validate_config_match r.cfg existing meta) r

abbrev pub after_mkdir :
    StartAnswers
    → Bool
    → Bool
    → Option (SwitchConfig × SwitchMetadata)
    → Mkdir
    → Run
    → Result StartFailure (Unit {0}) × Run
after_mkdir k addr_auto lock opened created r = start_new k addr_auto lock r
after_mkdir k addr_auto lock opened exists r =
    (if lock then get_existing_switch opened else check lock_failed false) (unmade r)
after_mkdir k addr_auto lock opened failed r = (err mkdir_failed, unmade r)

abbrev pub after_validation :
    StartAnswers
    → Bool
    → Bool
    → Bool
    → Option (SwitchConfig × SwitchMetadata)
    → Mkdir
    → Bool
    → Run
    → Result StartFailure (Unit {0}) × Run
after_validation k addr_auto bpffs lock opened mkdir valid r =
    if not valid
    then (err invalid_config, unmade r)
    else if not bpffs
    then (err bpffs_failed, unmade r)
    else after_mkdir k addr_auto lock opened mkdir r

abbrev pub is_ok {ℓ κ} : {E : Type ℓ} {A : Type κ} → Result E A → Bool
is_ok (ok _) = true
is_ok (err _) = false

unfoldable pub start_reserved :
    StartAnswers
    → Bool
    → Bool
    → Bool
    → Option (SwitchConfig × SwitchMetadata)
    → Mkdir
    → Config
    → Option IpNet
    → MmappedSlots
    → NatMaps
    → Result StartFailure (Unit {0}) × Run
start_reserved k addr_auto bpffs lock opened mkdir c addr slots nat =
    let (valid, c') = validate_reserved c in
    after_validation k addr_auto bpffs lock opened mkdir (is_ok valid) (begin c' addr slots nat)
