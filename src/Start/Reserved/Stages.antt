-- ===== src/Start/Reserved/Stages.antt =====
-- The state of a start and its steps: each step may fail and may change what has been made.
use connector.Base.{ℕ, Bool, true, false, Option, Result, ok, err, Bytes}
use connector.Slots.{MmappedSlots}
use connector.Switch.{SwitchConfig}
use connector.Config.{Config}
use connector.Config.Services.{IpNet}
use connector.MgmtService.{NatMaps, UpdateFailures}
use connector.Start.Cleanup.{Resources, CleanupState, UndoAnswers}

pub data StartFailure : Type 0 where
  invalid_config bpffs_failed mkdir_failed lock_failed : StartFailure
  open_failed config_differs netns_failed transit_not_down transit_state_unknown : StartFailure
  mtu_refused load_failed pin_failed dummy_failed config_write_failed : StartFailure
  metadata_write_failed mmap_failed slot_not_free mgmt_netns_failed mgmt_create_failed :
      StartFailure
  mgmt_ifindex_failed mgmt_tc_failed mgmt_configure_failed services_failed : StartFailure
  mgmt_mtu_failed caller_netns_failed move_failed transit_failed dhcp_failed : StartFailure

-- `transit_addr` is the address that the transit device is given.
pub record Run : Type 0 where
  pub made : Resources
  pub cs : CleanupState
  pub cfg : Config
  pub transit_addr : Option IpNet
  pub slots : MmappedSlots
  pub config : Option SwitchConfig
  pub nat : NatMaps

abbrev pub Stage : Type 0
Stage = Run → Result StartFailure (Unit {0}) × Run

abbrev pub continue_with :
    Result StartFailure (Unit {0}) × Run → Stage → Result StartFailure (Unit {0}) × Run
continue_with (ok _, r) next = next r
continue_with (err e, r) next = (err e, r)

infixl 5 ◌>>◌
abbrev pub ◌>>◌ : Stage → Stage → Stage
◌>>◌ m k r = continue_with (m r) k

-- `if err := call(); err != nil { return err }`.
abbrev pub check : StartFailure → Bool → Stage
check e true r = (ok tt, r)
check e false r = (err e, r)

abbrev pub change : (Run → Run) → Stage
change f r = (ok tt, f r)

abbrev pub with_run : (Run → Stage) → Stage
with_run f r = f r r

-- One management plane; CreateVethPairs adds the pair (`create_veth`) and then brings its end up
-- (`raise_veth`), and takes nothing back where that fails; `ifindex` is what the kernel numbers the veth, `ifindex_read` whether it
-- can be asked for it.
pub record PlaneAnswers : Type 0 where
  pub netns_opens : Bool
  pub create_veth : Bool
  pub raise_veth : Bool
  pub ifindex : ℕ
  pub ifindex_read : Bool
  pub attach_tc : Bool
  pub link_up : Bool
  pub add_route : ℕ → Bool
  pub mtu : Option ℕ

pub record DhcpLease : Type 0 where
  pub addr : IpNet
  pub gateway : Bytes

pub record TransitAnswers : Type 0 where
  pub is_down : Option Bool
  pub device_mtu : Option ℕ
  pub caller_netns : Bool
  pub move : Bool
  pub set_mtu : Bool
  pub link_up : Bool
  pub dhcp : Option DhcpLease
  pub update_config : Bool
  pub update_metadata : Bool
  pub attach_tc : Bool

pub record StartAnswers : Type 0 where
  pub switch_netns : Bool
  pub load_objects : Bool
  pub pin_maps : Bool
  pub create_dummy : Bool
  pub lookup_dummy : Bool
  pub add_clsact : Bool
  pub add_block_filter : Bool
  pub write_config : Bool
  pub write_metadata : Bool
  pub mmap : Bool
  pub plane : ℕ → PlaneAnswers
  pub nat : UpdateFailures
  pub peer_mtu : ℕ → Option ℕ
  pub transit : TransitAnswers
  pub undo : UndoAnswers
