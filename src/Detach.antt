-- ===== src/Detach.antt =====
-- Detach of pkg/vswitch/attach.go: the device goes back first, then the publication is withdrawn, and
-- the release of the slot is last. Other processes run up to each `interfere`.
pub mod Ends
pub mod Quiet
use connector.Base.{
  ℕ, ◌+◌, ◌-◌, Bool, true, false, not, ◌&&◌, ◌||◌, Result, ok, err, ensure, refuse, ◌==◌, leb,
  if◌then◌else◌, Bytes, u32,
}
use connector.Base
use connector.Ip.{is_nil}
use connector.Slots.{
  SlotItem, MmappedSlots, get_inner_ip, update_slot_fields, inner_ip_free, inner_ip_reserved,
}
use connector.Slots.Cas.{is_slot_free_or_reserved, try_release}
use connector.Switch.{
  World, SwitchContext, SwitchError, Kernel, port_device, move_device, recheck, commit,
  port_out_of_range, port_not_attached, port_required, netns_missing, device_not_found, move_failed,
  reattached,
}
use connector.Switch.Act.{Act, then_do, ◌>>=◌, ◌>>◌, lift, interfere}
use connector.Switch.Abi.{require_attachment_abi}
use connector.Attach.Options.{port_kind_veth}
use connector.PortUp.{read_owner}

pub record DetachOptions : Type 0 where
  pub port : ℕ
  pub from_netns : Bytes
  pub skip_device : Bool

unfoldable pub check_detach : SwitchContext → DetachOptions → Result SwitchError (Unit {0})
check_detach s opts = Base.◌>>◌ (refuse (opts.port == 0) port_required) (
    Base.◌>>◌ (refuse (leb s.cfg.n_ports (u32 (opts.port - 1))) port_out_of_range)
      (require_attachment_abi s))

-- The device of a veth port, back to the port namespace if it is not there.
unfoldable pub return_device :
    Kernel → SwitchContext → DetachOptions → ℕ → ℕ → Result SwitchError (Unit {0})
return_device k s opts slot kind =
    if not (kind == port_kind_veth && not opts.skip_device)
    then ok tt
    else if not (k.netns_exists s.meta.port_netns)
    then err netns_missing
    else if k.link_in_port_netns (port_device (slot + 1))
    then ok tt
    else if is_nil opts.from_netns
    then err device_not_found
    else if not (k.netns_exists opts.from_netns)
    then err netns_missing
    else if k.move_fails (port_device (slot + 1))
    then err move_failed
    else ok tt

abbrev pub read_kind : ℕ → Act ℕ
read_kind slot w = (ok (w.slots.items slot).mode, w)

abbrev pub lowered : SlotItem → SlotItem
lowered item = record item { flags = 0 }

abbrev pub unhinted : SlotItem → SlotItem
unhinted item = record item { geneve_opts_len = 0 }

-- The two stores that withdraw the publication.
unfoldable pub withdraw : ℕ → World → World
withdraw slot w = record w {
  slots = update_slot_fields (update_slot_fields w.slots slot lowered) slot unhinted;
}

-- Somebody else has the slot: that is an error only if it is a new owner.
abbrev pub given_up : ℕ → Act (Unit {0})
given_up slot w =
    if is_slot_free_or_reserved (get_inner_ip w.slots slot) then (ok tt, w) else (err reattached, w)

abbrev pub released : ℕ → Bool × MmappedSlots → Act (Unit {0})
released slot r w =
    if r.0 then (ok tt, record w { slots = r.1 }) else given_up slot (record w { slots = r.1 })

abbrev pub release : ℕ → ℕ → Act (Unit {0})
release slot current w = released slot (try_release w.slots slot current) w

unfoldable pub finish : Kernel → ℕ → ℕ → Act (Unit {0})
finish k slot current w =
    if get_inner_ip w.slots slot == current
    then release slot current (k.others commit (withdraw slot w))
    else given_up slot w

unfoldable pub detach_slot : Kernel → SwitchContext → DetachOptions → ℕ → Act (Unit {0})
detach_slot k s opts slot = do
  current ← read_owner slot
  lift (refuse (is_slot_free_or_reserved current) port_not_attached)
  kind ← read_kind slot
  interfere k move_device
  lift (return_device k s opts slot kind)
  interfere k recheck
  finish k slot current

unfoldable pub detach : Kernel → SwitchContext → DetachOptions → Act (Unit {0})
detach k s opts = do lift (check_detach s opts); detach_slot k s opts (u32 (opts.port - 1))
