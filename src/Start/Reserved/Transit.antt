-- ===== src/Start/Reserved/Transit.antt =====
-- The transit device of a start (pkg/vswitch/lifecycle.go, configureTransitDevice).
use connector.Base.{
  Bool, true, false, ◌||◌, Option, none, some, ok, err, ◌==◌, if◌then◌else◌, Bytes, ℤ, pos, negsuc,
}
use connector.Ip.{is_nil, ip_to_uint32}
use connector.Switch.{SwitchConfig}
use connector.Start.Reserved.Stages.{
  DhcpLease, Run, Stage, StartAnswers, caller_netns_failed, change, check, dhcp_failed, move_failed,
  transit_failed, with_run, ◌>>◌,
}

-- After the move the device is configured in its new namespace. `addr_auto` is the configuration's
-- wish for DHCP. Adding the address may fail unnoticed.
abbrev pub after_lease : DhcpLease → Run → Run
after_lease lease r = record r {
  transit_addr = some lease.addr;
  cfg = record r.cfg { transit_nexthop = lease.gateway };
}

abbrev pub set_nexthop : Bytes → Option SwitchConfig → Option SwitchConfig
set_nexthop gateway none = none
set_nexthop gateway (some c) = some (record c { transit_nexthop = ip_to_uint32 gateway })

abbrev pub store_nexthop : StartAnswers → Bytes → Stage
store_nexthop k gateway = do
  check transit_failed k.transit.update_config
  change (λ r. record r { config = set_nexthop gateway r.config })

abbrev pub with_lease : StartAnswers → DhcpLease → Stage
with_lease k lease = do
  change (after_lease lease)
  (if is_nil lease.gateway then change (λ r. r) else store_nexthop k lease.gateway)
  check transit_failed k.transit.update_metadata

abbrev pub use_lease : StartAnswers → Option DhcpLease → Stage
use_lease k none r = (err dhcp_failed, r)
use_lease k (some lease) r = with_lease k lease r

abbrev pub set_transit_mtu : StartAnswers → ℤ → Stage
set_transit_mtu k (negsuc n) r = (ok tt, r)
set_transit_mtu k (pos n) r = check transit_failed (n == 0 || k.transit.set_mtu) r

abbrev pub close_caller : Stage
close_caller = change (λ r. record r { cs = record r.cs { caller_ns = false } })

abbrev pub after_move : Bool → Stage
after_move true = change (λ r. record r {
  made = record r.made { transit_moved = true };
  cs = record r.cs { transit_moved = true };
})
after_move false = do close_caller; check move_failed false

abbrev pub move_device : StartAnswers → Stage
move_device k = do
  check caller_netns_failed k.transit.caller_netns
  change (λ r. record r { cs = record r.cs { caller_ns = true } })
  after_move k.transit.move

abbrev pub configure_moved : StartAnswers → Bool → Stage
configure_moved k addr_auto = do
  with_run (λ r. set_transit_mtu k r.cfg.transit_dev_mtu)
  check transit_failed k.transit.link_up
  (if addr_auto then use_lease k k.transit.dhcp else change (λ r. r))
  check transit_failed k.transit.attach_tc

abbrev pub configure_transit_device : StartAnswers → Bool → Stage
configure_transit_device k addr_auto = with_run λ r.
    if is_nil r.cfg.transit_dev
    then change (λ q. q)
    else do move_device k; configure_moved k addr_auto; close_caller
