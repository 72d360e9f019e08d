-- ===== src/Examples/Kernel.antt =====
-- A switch of the present layout, a tap and a veth pair, with a kernel that refuses or loses some calls.
use connector.Base.{◌≡◌, refl, ◌↔◌, true, false, some, none, [], ◌∷◌, Bool, arith, replicate}
use connector.Bpf.{
  PinName, PinAnswer, opened, not_exist, failed, Objects, pin_slots, pin_stats, load_pinned_maps,
  pin_maps, pin_metadata,
}
use connector.Bpf.Loadable.{loads, answers_of, pin_maps-loadable, pins_all}
use connector.Opening.{OpenAnswers, Held, open_switch}
use connector.Opening.Balance.{Balanced, open_switch-Balanced}
use connector.Opening.Openable.{opens, openable, open_switch-openable}
use connector.Opening.Lock.{LockAnswers, Process, dir_opened, acquire_current_switch_control_lock}
use connector.Opening.Lock.Locked.{
  CanLock, IsCurrent, HeldLock, acquire_current_switch_control_lock-Held, taken,
}
use connector.Netlink.{Devices, veth}
use connector.Netlink.Tap.{TapSpec, TapAnswers, create_tap}
use connector.Netlink.Tap.Clean.{Clean, create_tap-Clean}
use connector.Netlink.Veth.{Spaces, VethSpec, VethAnswers, create_veth_pairs}
use connector.Netlink.Veth.Raised.{OnOk, AllMade, create_veth_pairs-Made}

-- The metadata map cannot be opened.
abbrev half : PinName → PinAnswer
half pin_metadata = failed
half pin_slots = not_exist
half _ = opened

abbrev objects : Objects
objects = record { made = 2; live = 0 ∷ 1 ∷ [] }

abbrev half_answers : OpenAnswers
half_answers = record {
  exists = some true;
  pins = half;
  config = none;
  metadata = none;
  mmap = none;
}

abbrev held : Held
held = record { objects = objects; mappings = 1 }

open_switch-Balanced_example : Balanced held (open_switch half_answers (1 ∷ []) held)
open_switch-Balanced_example =
    open_switch-Balanced half_answers (1 ∷ []) held (omega arith, (omega arith, tt))

open_switch-openable_example :
    opens (open_switch half_answers (1 ∷ []) held) ≡ openable half_answers
open_switch-openable_example = open_switch-openable half_answers (1 ∷ []) held

-- The fifth pin cannot be made.
abbrev no_stats : PinName → Bool
no_stats pin_stats = false
no_stats _ = true

pin_maps-loadable_example :
    loads (load_pinned_maps (answers_of (pin_maps no_stats).1) objects)
    ≡ pins_all (pin_maps no_stats)
pin_maps-loadable_example = pin_maps-loadable no_stats objects

-- The switch was replaced_switch while the lock was awaited.
abbrev replaced_switch : LockAnswers
replaced_switch = record {
  bpffs = true;
  directory = dir_opened;
  flock = true;
  pins = half;
  opened_info = some (some 7);
  pinned_info = some (some 9);
}

abbrev process : Process
process = record { files = 3; locks = 0; objects = objects }

acquire_current_switch_control_lock-Held_example :
    HeldLock process (acquire_current_switch_control_lock replaced_switch true process)
    × ((taken (acquire_current_switch_control_lock replaced_switch true process) ≡ true)
        ↔ (CanLock replaced_switch × IsCurrent replaced_switch))
acquire_current_switch_control_lock-Held_example =
    acquire_current_switch_control_lock-Held replaced_switch process
      (omega arith, (omega arith, tt))

abbrev no_devices : Devices
no_devices _ = none

abbrev tap_spec : TapSpec
tap_spec = record { name = 116 ∷ []; mtu = 0; mac = some (replicate 6 2); group = 5 }

-- The tap cannot be brought up.
abbrev tap_down : TapAnswers
tap_down = record {
  add = true;
  index = 12;
  picked_mac = replicate 6 4;
  picked_mtu = 1500;
  forwards_mac = false;
  lookup = true;
  set_mac = true;
  set_up = false;
  delete = true;
}

create_tap-Clean_example :
    Clean tap_spec tap_down no_devices (create_tap tap_spec tap_down no_devices)
create_tap-Clean_example = create_tap-Clean tap_spec tap_down no_devices refl

abbrev port_pair : VethSpec
port_pair = record {
  name = 110 ∷ [];
  peer_name = 112 ∷ [];
  mtu = 1400;
  elsewhere = true;
  peer_mac = some (replicate 6 2);
  group = 5;
}

abbrev all_work : VethAnswers
all_work = record {
  add = true;
  index = 21;
  peer_index = 22;
  picked_mac = replicate 6 8;
  picked_peer_mac = replicate 6 9;
  picked_mtu = 1500;
  lookup = true;
  set_up = true;
  peer_lookup = true;
  peer_set_up = true;
  delete = true;
}

abbrev spaces : Spaces
spaces = record { here = no_devices; there = no_devices }

create_veth_pairs-Made_example :
    OnOk
      (AllMade ((port_pair, all_work) ∷ []))
      (create_veth_pairs ((port_pair, all_work) ∷ []) spaces)
create_veth_pairs-Made_example = create_veth_pairs-Made ((port_pair, all_work) ∷ []) spaces

-- The same pair with an end that cannot be raised: an error, and the end stays, down.
stranded :
    (create_veth_pairs ((port_pair, record all_work { set_up = false }) ∷ []) spaces).1.here
      (110 ∷ [])
    ≡ some
        (record { kind = veth; index = 21; up = false; mac = replicate 6 8; mtu = 1400; group = 5 })
unfolding create_veth_pairs
stranded = refl
