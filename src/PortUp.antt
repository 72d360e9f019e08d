-- ===== src/PortUp.antt =====
-- SetPortUp of pkg/vswitch/port_up.go: the final configuration of an attachment that is down.
-- Other processes run up to each `interfere`.
pub mod Validate
pub mod Failure
pub mod Success
pub mod Outcome
use connector.Base.{
  ℕ, ◌-◌, ◌%◌, Bool, true, false, Result, ok, err, ensure, ◌==◌, if◌then◌else◌, u32,
}
use connector.Ip.{ip_to_uint32}
use connector.Slots.{SlotItem, MmappedSlots, get_inner_ip, update_slot_fields}
use connector.Slots.Cas.{is_slot_allocated, try_update_inner_ip}
use connector.Switch.{
  World, SwitchContext, SwitchError, Kernel, check_mtu, recheck, update_options, recheck_again,
  commit, verify_owner, publish, port_not_attached, already_up, owner_changed,
}
use connector.Switch.Act.{Act, then_do, ◌>>=◌, ◌>>◌, lift, interfere}
use connector.Attach.Options.{Prepared}
use connector.Attach.Prepare.{check_options_mtu, check_owner, write_geneve_opts, transit_mac_of}
use connector.Attach.Publish.{up}
use Validate.{PortUpOptions, check_port, check_port_up}

abbrev pub read_owner : ℕ → Act ℕ
read_owner slot w = (ok (get_inner_ip w.slots slot), w)

-- `Flags & PortFUp != 0`, bit 0.
abbrev pub check_down : ℕ → Act (Unit {0})
check_down slot w = if (w.slots.items slot).flags % 2 == 1 then (err already_up, w) else (ok tt, w)

abbrev pub check_slot_mtu : Kernel → SwitchContext → ℕ → ℕ → Act (Unit {0})
check_slot_mtu k s slot total w = check_options_mtu k s slot (w.slots.items slot).mode total w

-- The whole transit state of the request; an absent gateway is 0.
abbrev pub replaced : PortUpOptions → Prepared → SlotItem → SlotItem
replaced opts p item = record item {
  geneve_opts_len = p.value.len;
  transit_gateway_ip = ip_to_uint32 opts.transit_gateway_ip;
  transit_geneve_vni = opts.transit_geneve_vni;
  transit_mac = transit_mac_of opts.transit_mac;
}

abbrev pub replace_transit : PortUpOptions → Prepared → ℕ → Act (Unit {0})
replace_transit opts p slot w =
    (ok tt, record w { slots = update_slot_fields w.slots slot (replaced opts p) })

abbrev pub owner_updated : Bool × MmappedSlots → Act (Unit {0})
owner_updated r w =
    if r.0 then (ok tt, record w { slots = r.1 }) else (err owner_changed, record w { slots = r.1 })

abbrev pub update_owner : ℕ → ℕ → ℕ → Act (Unit {0})
update_owner slot current new w = owner_updated (try_update_inner_ip w.slots slot current new) w

abbrev pub raise : ℕ → Act (Unit {0})
raise slot w = (ok tt, record w { slots = update_slot_fields w.slots slot up })

-- From the new configuration to its publication, the flag last.
unfoldable pub commit_port_up :
    Kernel → SwitchContext → PortUpOptions → Prepared → ℕ → ℕ → Act (Unit {0})
commit_port_up k s opts p slot current = do
  interfere k check_mtu
  check_slot_mtu k s slot p.total_len
  interfere k recheck
  check_owner slot current
  interfere k update_options
  write_geneve_opts k slot p.value
  interfere k recheck_again
  check_owner slot current
  replace_transit opts p slot
  interfere k commit
  update_owner slot current p.inner_ip
  interfere k verify_owner
  check_owner slot p.inner_ip
  interfere k publish
  raise slot

unfoldable pub set_slot_up : Kernel → SwitchContext → PortUpOptions → ℕ → Act (Unit {0})
set_slot_up k s opts slot = do
  current ← read_owner slot
  lift (ensure (is_slot_allocated current) port_not_attached)
  check_down slot
  p ← lift (check_port_up s opts)
  commit_port_up k s opts p slot current

unfoldable pub set_port_up : Kernel → SwitchContext → PortUpOptions → Act (Unit {0})
set_port_up k s opts = do lift (check_port s opts); set_slot_up k s opts (u32 (opts.port - 1))
