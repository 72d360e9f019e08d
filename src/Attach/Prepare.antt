-- ===== src/Attach/Prepare.antt =====
-- The fallible part of Attach between the claim and the publication (pkg/vswitch/attach.go), with
-- `writeGeneveOpts` and `validateAttachMTU`, which SetPortUp shares.
use connector.Base.{
  ℕ, ◌+◌, Bool, true, false, not, ◌&&◌, Option, none, some, Result, ok, err, ltb, ◌==◌,
  if◌then◌else◌, Bytes,
}
use connector.Base
use connector.Ip.{ip_to_uint32, is_nil}
use connector.Geneve.{GeneveOptsValue}
use connector.Slots.{SlotItem, get_inner_ip, update_slot_fields, zero_mac}
use connector.Slots.Cas.{try_release}
use connector.Switch.{
  World, SwitchContext, SwitchError, Kernel, port_device, peer_device, tap_device, transit_device,
  update_options, check_mtu, move_device, recheck, port_not_provisioned, options_write_failed,
  netns_missing, mtu_unknown, mtu_too_small, move_failed, taken_over,
}
use connector.Switch.Act.{Act, ◌>>◌, interfere}
use connector.Attach.Options.{AttachOptions, Prepared, port_kind_veth, port_kind_tap}

abbrev pub geneve_ip_overhead : ℕ
geneve_ip_overhead = 50

abbrev pub geneve_eth_overhead : ℕ
geneve_eth_overhead = 64

abbrev pub unpublished_generation : ℕ
unpublished_generation = 4294967295

-- `if len(mac) >= 6 { SetTransitMacAddr(mac) }` on a cleared field.
abbrev pub transit_mac_of : Bytes → Bytes
transit_mac_of mac = if ltb (Base.length mac) 6 then zero_mac else Base.take 6 mac

-- The first update of a claimed slot: no readiness, no publication, the requested transit state.
abbrev pub suppressed : AttachOptions → SlotItem → SlotItem
suppressed opts item = record item {
  stats_ready = 0;
  flags = 0;
  generation = unpublished_generation;
  geneve_opts_len = 0;
  transit_gateway_ip =
      if is_nil opts.transit_gateway_ip then 0 else ip_to_uint32 opts.transit_gateway_ip;
  transit_geneve_vni = opts.transit_geneve_vni;
  transit_mac = transit_mac_of opts.transit_mac;
}

unfoldable pub suppress : AttachOptions → ℕ → Act (Unit {0})
suppress opts slot w =
    (ok tt, record w { slots = update_slot_fields w.slots slot (suppressed opts) })

-- `rollbackClaim`; the result of the CAS is not looked at.
unfoldable pub rollback_claim : ℕ → ℕ → World → World
rollback_claim slot ip w = record w { slots = (try_release w.slots slot ip).1 }

abbrev pub give_back :
    ℕ → ℕ → {A : Type 0} → Result SwitchError A × World → Result SwitchError A × World
give_back slot ip (ok a, w) = (ok a, w)
give_back slot ip (err e, w) = (err e, rollback_claim slot ip w)

-- A step whose failure gives the claim back.
abbrev pub or_rollback : ℕ → ℕ → {A : Type 0} → Act A → Act A
or_rollback slot ip m w = give_back slot ip (m w)

abbrev pub check_provisioned : ℕ → Act (Unit {0})
check_provisioned slot w =
    let item = w.slots.items slot in
    if item.mode == port_kind_tap && item.ifindex == 0
    then (err port_not_provisioned, w)
    else (ok tt, w)

unfoldable pub write_geneve_opts : Kernel → ℕ → GeneveOptsValue → Act (Unit {0})
write_geneve_opts k slot value w =
    if k.options_update_fails
    then (err options_write_failed, w)
    else (ok tt, record w { geneve_opts = λ j. if j == slot then value else w.geneve_opts j })

abbrev pub compare_mtu : ℕ → Option ℕ → Option ℕ → Result SwitchError (Unit {0})
compare_mtu overhead none transit = err mtu_unknown
compare_mtu overhead (some port) none = err mtu_unknown
compare_mtu overhead (some port) (some transit) =
    if ltb transit (port + overhead) then err mtu_too_small else ok tt

unfoldable pub validate_attach_mtu :
    Kernel → SwitchContext → ℕ → ℕ → ℕ → Result SwitchError (Unit {0})
validate_attach_mtu k s slot kind options_overhead =
    let port = if kind == port_kind_tap then tap_device (slot + 1) else peer_device (slot + 1) in
    let base = if s.cfg.geneve_encap_eth == 0 then geneve_ip_overhead else geneve_eth_overhead in
    if is_nil s.meta.transit_dev
    then ok tt
    else if not (k.netns_exists s.meta.switch_netns)
    then err netns_missing
    else compare_mtu (base + options_overhead) (k.mtu port) (k.mtu transit_device)

-- `if totalGeneveOptsLen != 0 { validateAttachMTUFn(...) }`, on the slot's kind as read before.
abbrev pub check_options_mtu : Kernel → SwitchContext → ℕ → ℕ → ℕ → Act (Unit {0})
check_options_mtu k s slot kind total w =
    if total == 0 then (ok tt, w) else (validate_attach_mtu k s slot kind total, w)

-- Moving the sandbox's end of a veth pair into its namespace.
unfoldable pub move_port :
    Kernel → SwitchContext → AttachOptions → ℕ → ℕ → Result SwitchError (Unit {0})
move_port k s opts slot kind =
    if not (kind == port_kind_veth && not opts.skip_device && not (is_nil opts.to_netns))
    then ok tt
    else if not (k.netns_exists s.meta.port_netns)
    then err netns_missing
    else if not (k.netns_exists opts.to_netns)
    then err netns_missing
    else if k.move_fails (port_device (slot + 1))
    then err move_failed
    else ok tt

abbrev pub move_step : Kernel → SwitchContext → AttachOptions → ℕ → ℕ → Act (Unit {0})
move_step k s opts slot kind w = (move_port k s opts slot kind, w)

-- `if s.mmapSlots.GetInnerIP(slotID) != innerIP { return taken over }`.
abbrev pub check_owner : ℕ → ℕ → Act (Unit {0})
check_owner slot ip w = if get_inner_ip w.slots slot == ip then (ok tt, w) else (err taken_over, w)

-- The steps in the order of the source, on the kind that the claimed slot had.
unfoldable pub prepare_kind :
    Kernel → SwitchContext → AttachOptions → ℕ → Prepared → ℕ → Act (Unit {0})
prepare_kind k s opts slot p kind = do
  or_rollback slot p.inner_ip (check_provisioned slot)
  interfere k update_options
  or_rollback slot p.inner_ip (write_geneve_opts k slot p.value)
  interfere k check_mtu
  or_rollback slot p.inner_ip (check_options_mtu k s slot kind p.total_len)
  interfere k move_device
  or_rollback slot p.inner_ip (move_step k s opts slot kind)
  interfere k recheck
  check_owner slot p.inner_ip

unfoldable pub prepare : Kernel → SwitchContext → AttachOptions → ℕ → Prepared → Act (Unit {0})
unfolding prepare_kind
prepare k s opts slot p w = prepare_kind k s opts slot p (w.slots.items slot).mode w
