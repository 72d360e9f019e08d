-- ===== src/Start/Reserved/Steps.antt =====
-- The steps of a start up to the MTU (pkg/vswitch/lifecycle.go): what each of them makes and notes.
use connector.Base.{
  ℕ, zero, suc, ◌+◌, Bool, true, false, not, ◌&&◌, ◌||◌, Option, none, some, List, [], ◌∷◌, ◌++◌,
  Result, ok, err, ltb, ◌==◌, if◌then◌else◌, ℤ, pos, negsuc, length,
}
use connector.Ip.{is_nil}
use connector.Slots.{MmappedSlots}
use connector.Slots.Reserved.{InitError, init_bpf_slots_reserved}
use connector.Config.{Config, switch_config}
use connector.Config.Services.{MgmtExtract}
use connector.MgmtService.{Written, done, stopped, write_mgmt_services}
use connector.Start.{StartError, resolve_transit_mtu, floating_return_nets}
use connector.Start.Reserved.Stages.{
  PlaneAnswers, Stage, StartAnswers, change, check, config_write_failed, dummy_failed, load_failed,
  metadata_write_failed, mgmt_configure_failed, mgmt_create_failed, mgmt_ifindex_failed,
  mgmt_mtu_failed, mgmt_netns_failed, mgmt_tc_failed, mmap_failed, mtu_refused, pin_failed,
  services_failed, slot_not_free, transit_not_down, transit_state_unknown, with_run, ◌>>◌,
}

abbrev pub mtu_stage : Result StartError (Unit {0}) × Config → Stage
mtu_stage (ok _, c) r = (ok tt, record r { cfg = c })
mtu_stage (err _, c) r = (err mtu_refused, record r { cfg = c })

abbrev pub resolve_stage : StartAnswers → ℕ → Stage
resolve_stage k port_mtu =
    with_run λ r. mtu_stage (resolve_transit_mtu k.transit.device_mtu r.cfg port_mtu)

abbrev pub check_transit_down : Option Bool → Stage
check_transit_down none r = (err transit_state_unknown, r)
check_transit_down (some down) r = check transit_not_down down r

-- The MTU is checked early if it is given.
abbrev pub check_mtu_early : StartAnswers → ℤ → Stage
check_mtu_early k (negsuc n) r = (ok tt, r)
check_mtu_early k (pos n) r = (if n == 0 then change (λ q. q) else resolve_stage k n) r

abbrev pub validate_transit_device_early : StartAnswers → Stage
validate_transit_device_early k = with_run λ r.
    if is_nil r.cfg.transit_dev
    then change (λ q. q)
    else do check_transit_down k.transit.is_down; check_mtu_early k r.cfg.mtu

abbrev pub load_bpf : StartAnswers → Stage
load_bpf k = do
  check load_failed k.load_objects
  change (λ r. record r {
    made = record r.made { objects_open = true };
    cs = record r.cs { bpf_loaded = true };
  })
  check pin_failed k.pin_maps
  change (λ r. record r { cs = record r.cs { maps_pinned = true } })

-- The device exists as soon as it is created; that it was is noted at the end.
abbrev pub create_dummy_device : StartAnswers → Stage
create_dummy_device k = do
  check dummy_failed k.create_dummy
  change (λ r. record r { made = record r.made { dummy = true } })
  check dummy_failed k.lookup_dummy
  check dummy_failed k.add_clsact
  check dummy_failed k.add_block_filter
  change (λ r. record r { cs = record r.cs { dummy_dev_created = true } })

abbrev pub write_configuration : StartAnswers → Stage
write_configuration k = do
  check config_write_failed k.write_config
  change (λ r. record r { config = some (switch_config r.cfg) })
  check metadata_write_failed k.write_metadata
  check mmap_failed k.mmap

abbrev pub slots_stage : Result InitError (Unit {0}) × MmappedSlots → Stage
slots_stage (ok _, m) r = (ok tt, record r { slots = m })
slots_stage (err _, m) r = (err slot_not_free, record r { slots = m })

abbrev pub init_slots : Stage
init_slots = with_run λ r. slots_stage (init_bpf_slots_reserved r.slots r.cfg.num_ports)

-- The return routes are added one by one.
abbrev pub routes_added : (ℕ → Bool) → ℕ → Bool
routes_added add zero = true
routes_added add (suc n) = routes_added add n && add n

abbrev pub create_plane : PlaneAnswers → ℕ → Stage
create_plane p routes = do
  check mgmt_netns_failed p.netns_opens
  check mgmt_create_failed p.create_veth
  change (λ r. record r { made = record r.made { mgmt = r.made.mgmt ++ p.ifindex ∷ [] } })
  check mgmt_create_failed p.raise_veth
  check mgmt_ifindex_failed p.ifindex_read
  change (λ r. record r {
    cs = record r.cs { mgmt_ifindexes = r.cs.mgmt_ifindexes ++ p.ifindex ∷ [] };
  })
  check mgmt_tc_failed p.attach_tc
  check mgmt_configure_failed p.link_up
  check mgmt_configure_failed (routes_added p.add_route routes)

unfoldable pub create_planes : StartAnswers → ℕ → List MgmtExtract → ℕ → Stage
create_planes k i [] routes r = (ok tt, r)
create_planes k i (me ∷ mes) routes r =
    (create_plane (k.plane i) routes >> create_planes k (i + 1) mes routes) r

abbrev pub create_mgmt_planes : StartAnswers → Stage
create_mgmt_planes k = with_run λ r.
    create_planes k 0 r.cfg.mgmt_extracts
      (length (floating_return_nets r.cfg.floating_ip_base r.cfg.generation_bits))

abbrev pub services_stage : Written → Stage
services_stage (done m) r = (ok tt, record r { nat = m })
services_stage (stopped _ m) r = (err services_failed, record r { nat = m })

abbrev pub write_services : StartAnswers → Stage
write_services k =
    with_run λ r. services_stage (write_mgmt_services k.nat r.cfg.mgmt_services r.nat)

abbrev pub larger : Option ℕ → ℕ → ℕ
larger none mtu = mtu
larger (some m) mtu = if ltb mtu m then m else mtu

-- The largest MTU of the port veths that exist.
abbrev pub largest_peer : (ℕ → Option ℕ) → ℕ → ℕ
largest_peer peer zero = 0
largest_peer peer (suc n) = larger (peer n) (largest_peer peer n)

unfoldable pub largest_mgmt : StartAnswers → ℕ → List MgmtExtract → ℕ → Option ℕ
largest_mgmt k i [] mtu = some mtu
largest_mgmt k i (me ∷ mes) mtu = elim (k.plane i).mtu [
  | none ↦ none
  | some m ↦ largest_mgmt k (i + 1) mes (larger (some m) mtu)
]

abbrev pub default_port_mtu : ℕ
default_port_mtu = 1500

abbrev pub slow_path : StartAnswers → Option ℕ → Stage
slow_path k none r = (err mgmt_mtu_failed, r)
slow_path k (some mtu) r = resolve_stage k (if mtu == 0 then default_port_mtu else mtu) r

abbrev pub is_zero : ℤ → Bool
is_zero (pos n) = n == 0
is_zero (negsuc n) = false

abbrev pub validate_mtu_slow_path : StartAnswers → Stage
validate_mtu_slow_path k = with_run λ r.
    if not (is_zero r.cfg.mtu) || is_nil r.cfg.transit_dev
    then change (λ q. q)
    else slow_path k
        (largest_mgmt k 0 r.cfg.mgmt_extracts (largest_peer k.peer_mtu r.cfg.num_ports))
