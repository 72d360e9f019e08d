-- ===== src/Start/Reserved/Keeps.antt =====
-- The steps of a start keep the resources noted (pkg/vswitch/lifecycle.go).
use connector.Base.{
  ℕ, ◌+◌, ◌≡◌, Bool, true, false, not, ◌||◌, Option, none, some, List, [], ◌∷◌, Result, ok, err,
  ◌==◌, if◌then◌else◌, Bytes, ℤ, pos, negsuc, arith, Bool-cases, inl, inr, ◌⊎◌,
}
use connector.Ip.{is_nil}
use connector.Slots.{MmappedSlots}
use connector.Slots.Reserved.{InitError}
use connector.Config.{Config}
use connector.Config.Services.{MgmtExtract}
use connector.MgmtService.{Written, done, stopped}
use connector.Start.{StartError}
use connector.Start.Cleanup.{Resources, CleanupState}
use connector.Start.Reserved.Stages.{
  StartFailure, Run, Stage, continue_with, ◌>>◌, check, change, with_run, PlaneAnswers, DhcpLease,
  StartAnswers, transit_failed,
}
use connector.Start.Reserved.Steps.{
  mtu_stage, resolve_stage, check_transit_down, check_mtu_early, validate_transit_device_early,
  load_bpf, create_dummy_device, write_configuration, slots_stage, init_slots, create_plane,
  create_planes, services_stage, write_services, slow_path, validate_mtu_slow_path, is_zero,
}
use connector.Start.Reserved.Transit.{
  after_lease, store_nexthop, use_lease, set_transit_mtu, configure_moved,
}

-- What exists is noted for the cleanup, and the transit device has not been moved.
pub record IsNoted (m : Resources) (cs : CleanupState) : Type 0 where
  pub pin_dir : cs.pin_dir_created ≡ true
  pub objects : m.objects_open ≡ cs.bpf_loaded
  pub dummy : m.dummy ≡ cs.dummy_dev_created
  pub mgmt : m.mgmt ≡ cs.mgmt_ifindexes
  pub in_place : m.transit_moved ≡ false
  pub move_unnoted : cs.transit_moved ≡ false

-- The same while the device is in the switch's namespace: it can go back.
pub record IsMoved (m : Resources) (cs : CleanupState) : Type 0 where
  pub pin_dir : cs.pin_dir_created ≡ true
  pub objects : m.objects_open ≡ cs.bpf_loaded
  pub dummy : m.dummy ≡ cs.dummy_dev_created
  pub mgmt : m.mgmt ≡ cs.mgmt_ifindexes
  pub move_noted : cs.transit_moved ≡ true
  pub caller_open : cs.caller_ns ≡ true

-- What the cleanup relies on.
abbrev pub IsUndoable : Resources → CleanupState → Type 0
IsUndoable m cs = IsNoted m cs ⊎ IsMoved m cs

-- Invariants of the resources and their notes.
module _ (P : Resources → CleanupState → Type 0) where
  -- Whatever the result.
  abbrev pub Keeps : Stage → Type 0
  Keeps s = (r : Run) → P r.made r.cs → P (s r).1.made (s r).1.cs

  pub >>-Keeps : (a b : Stage) → Keeps a → Keeps b → Keeps (a >> b)
  >>-Keeps a b ha hb r v = by_result (a r) (ha r v)
    where
      by_result :
          (q : Result StartFailure (Unit {0}) × Run)
          → P q.1.made q.1.cs
          → P (continue_with q b).1.made (continue_with q b).1.cs
      by_result (ok _, q) w = hb q w
      by_result (err _, q) w = w

  pub check-Keeps : (e : StartFailure) (b : Bool) → Keeps (check e b)
  check-Keeps e true r v = v
  check-Keeps e false r v = v

  -- A step under a condition.
  pub if-Keeps : (b : Bool) (s t : Stage) → Keeps s → Keeps t → Keeps (if b then s else t)
  if-Keeps true s t hs ht = hs
  if-Keeps false s t hs ht = ht

  pub mtu_stage-Keeps : (q : Result StartError (Unit {0}) × Config) → Keeps (mtu_stage q)
  mtu_stage-Keeps (ok _, c) r v = v
  mtu_stage-Keeps (err _, c) r v = v

  pub resolve_stage-Keeps : (k : StartAnswers) (mtu : ℕ) → Keeps (resolve_stage k mtu)
  resolve_stage-Keeps k mtu r v = mtu_stage-Keeps _ r v

  pub check_mtu_early-Keeps : (k : StartAnswers) (mtu : ℤ) → Keeps (check_mtu_early k mtu)
  check_mtu_early-Keeps k (negsuc n) r v = v
  check_mtu_early-Keeps k (pos n) r v = elim (Bool-cases (n == 0)) [
    | inl e ↦ rw e v
    | inr e ↦ rw e (resolve_stage-Keeps k n r v)
  ]

  pub check_transit_down-Keeps : (down : Option Bool) → Keeps (check_transit_down down)
  check_transit_down-Keeps none r v = v
  check_transit_down-Keeps (some true) r v = v
  check_transit_down-Keeps (some false) r v = v

  pub validate_early-Keeps : (k : StartAnswers) → Keeps (validate_transit_device_early k)
  validate_early-Keeps k r v =
      if-Keeps (is_nil r.cfg.transit_dev) (change (λ q. q))
        (check_transit_down k.transit.is_down >> check_mtu_early k r.cfg.mtu) (λ q w. w)
        (>>-Keeps (check_transit_down k.transit.is_down) (check_mtu_early k r.cfg.mtu)
          (check_transit_down-Keeps k.transit.is_down) (check_mtu_early-Keeps k r.cfg.mtu))
        r v

  pub init_slots-Keeps : Keeps init_slots
  init_slots-Keeps r v = by_result _
    where
      by_result :
          (q : Result InitError (Unit {0}) × MmappedSlots)
          → P (slots_stage q r).1.made (slots_stage q r).1.cs
      by_result (ok _, m) = v
      by_result (err _, m) = v

  pub write_services-Keeps : (k : StartAnswers) → Keeps (write_services k)
  write_services-Keeps k r v = by_result _
    where
      by_result : (w : Written) → P (services_stage w r).1.made (services_stage w r).1.cs
      by_result (done m) = v
      by_result (stopped e m) = v

  pub slow_path-Keeps : (k : StartAnswers) (mtu : Option ℕ) → Keeps (slow_path k mtu)
  slow_path-Keeps k none r v = v
  slow_path-Keeps k (some mtu) r v = resolve_stage-Keeps k _ r v

  pub validate_mtu_slow_path-Keeps : (k : StartAnswers) → Keeps (validate_mtu_slow_path k)
  validate_mtu_slow_path-Keeps k r v =
      if-Keeps (not (is_zero r.cfg.mtu) || is_nil r.cfg.transit_dev) (change (λ q. q))
        (slow_path k _) (λ q w. w) (slow_path-Keeps k _) r v

  pub store_nexthop-Keeps : (k : StartAnswers) (gateway : Bytes) → Keeps (store_nexthop k gateway)
  store_nexthop-Keeps k gateway =
      >>-Keeps (check transit_failed k.transit.update_config) _
        (check-Keeps transit_failed k.transit.update_config) (λ r v. v)

  pub use_lease-Keeps : (k : StartAnswers) (o : Option DhcpLease) → Keeps (use_lease k o)
  use_lease-Keeps k none r v = v
  use_lease-Keeps k (some lease) r v =
      >>-Keeps (if is_nil lease.gateway then change (λ q. q) else store_nexthop k lease.gateway)
        (check transit_failed k.transit.update_metadata)
        (if-Keeps (is_nil lease.gateway) (change (λ q. q)) (store_nexthop k lease.gateway)
          (λ q w. w) (store_nexthop-Keeps k lease.gateway))
        (check-Keeps transit_failed k.transit.update_metadata) (after_lease lease r) v

  pub set_transit_mtu-Keeps : (k : StartAnswers) (mtu : ℤ) → Keeps (set_transit_mtu k mtu)
  set_transit_mtu-Keeps k (negsuc n) r v = v
  set_transit_mtu-Keeps k (pos n) r v = check-Keeps _ _ r v

  pub configure_moved-Keeps : (k : StartAnswers) (auto : Bool) → Keeps (configure_moved k auto)
  configure_moved-Keeps k auto =
      let up = check transit_failed k.transit.link_up in
      let tc = check transit_failed k.transit.attach_tc in
      let lease = if auto then use_lease k k.transit.dhcp else change (λ r. r) in
      let mtu : Stage = with_run (λ r. set_transit_mtu k r.cfg.transit_dev_mtu) in
      >>-Keeps mtu (up >> (lease >> tc)) (λ r v. set_transit_mtu-Keeps k r.cfg.transit_dev_mtu r v)
        (>>-Keeps up (lease >> tc) (check-Keeps transit_failed k.transit.link_up) (
          >>-Keeps lease tc
            (if-Keeps auto (use_lease k k.transit.dhcp) (change (λ r. r))
              (use_lease-Keeps k k.transit.dhcp) (λ q w. w))
            (check-Keeps transit_failed k.transit.attach_tc)))

pub load_bpf-Keeps : (k : StartAnswers) → Keeps IsNoted (load_bpf k)
load_bpf-Keeps k r v = ground arith

pub create_dummy_device-Keeps :
    (k : StartAnswers)
    → k.lookup_dummy ≡ true
    → k.add_clsact ≡ true
    → k.add_block_filter ≡ true
    → Keeps IsNoted (create_dummy_device k)
create_dummy_device-Keeps k a b c r v = ground arith

pub write_configuration-Keeps : (k : StartAnswers) → Keeps IsNoted (write_configuration k)
write_configuration-Keeps k r v = ground arith

pub create_plane-Keeps :
    (p : PlaneAnswers) (routes : ℕ)
    → p.raise_veth ≡ true
    → p.ifindex_read ≡ true
    → Keeps IsNoted (create_plane p routes)
create_plane-Keeps p routes u h r v = ground arith

pub create_planes-Keeps :
    (k : StartAnswers) (i : ℕ) (mes : List MgmtExtract) (routes : ℕ)
    → ((j : ℕ) → (k.plane j).raise_veth ≡ true)
    → ((j : ℕ) → (k.plane j).ifindex_read ≡ true)
    → Keeps IsNoted (create_planes k i mes routes)
unfolding create_planes
create_planes-Keeps k i [] routes u h r v = v
create_planes-Keeps k i (me ∷ mes) routes u h r v =
    >>-Keeps IsNoted (create_plane (k.plane i) routes) (create_planes k (i + 1) mes routes)
      (create_plane-Keeps (k.plane i) routes (u i) (h i))
      (create_planes-Keeps k (i + 1) mes routes u h) r v
