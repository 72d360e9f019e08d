-- ===== src/Status/Ready.antt =====
-- What Ready means: IsReady and GetNotReadyReasons of pkg/vswitch/status.go against the slots and the links.
use connector.Base.{
  ℕ, ◌≡◌, refl, ◌≢◌, Bool, true, not, some, List, [], ◌∷◌, ◌++◌, ◌==◌, arith, All, length, ◌↔◌,
}
use connector.Slots.{MmappedSlots}
use connector.Status.{
  Links, Condition, StatusOutput, check_port_devices, check_mgmt_devices, check_transit_device,
  device_conditions, check_conditions, status, opens, is_ready, status_true, all_true, only_if,
  summary,
}
use connector.Status.Walk.{Checks, build_ports_to_check}
use connector.Status.Devices.{
  PortOk, LinkOk, check_port_devices_iff, check_mgmt_devices_iff, check_transit_device_iff,
}
use connector.Status.Gather.{IsChecked, AllMgmt, ports_iff, mgmt_iff, transit_iff}

-- Every device that a slot names is there and works, slots that are Reserved apart.
pub record IsHealthy (n_ports : ℕ) (m : MmappedSlots) (links : Links) (block_filter : Bool)
    : Type 0 where
  pub ports :
      (j : ℕ) → IsChecked n_ports m j → PortOk links (m.items j).ifindex × (block_filter ≡ true)
  pub mgmt : (j : ℕ) → IsChecked n_ports m j → AllMgmt (LinkOk (λ l. l.flag_up) links) (m.items j)
  pub transit :
      (j : ℕ)
      → IsChecked n_ports m j
      → (m.items j).transit_ifindex ≢ 0
      → LinkOk (λ l. l.oper_up) links (m.items j).transit_ifindex

all_true-append :
    (xs ys : List Condition)
    → (all_true (xs ++ ys) ≡ true) ↔ ((all_true xs ≡ true) × (all_true ys ≡ true))
all_true-append [] ys = ((λ h. (refl, h)), λ h. h.1)
all_true-append (x ∷ xs) ys = ground (arith, all_true-append xs ys)

-- A condition that stands only for a set with members.
all_true-only_if :
    (P : ℕ → Type 0) (ns : List ℕ) (c : Condition)
    → ((status_true c.status ≡ true) ↔ (All P ns))
    → (all_true (only_if (not (length ns == 0)) c) ≡ true) ↔ (All P ns)
all_true-only_if P [] c h = ((λ _. tt), λ _. refl)
all_true-only_if P (n ∷ ns) c h =
    ((λ a. h.0 (ground (arith, a))), λ a. let s = h.1 a in ground (arith, s))

device_conditions_iff :
    (c : Checks) (links : Links) (block_filter : Bool)
    → (all_true (device_conditions c links block_filter) ≡ true) ↔ (
        All (λ pc. PortOk links pc.port_ifindex × (block_filter ≡ true)) c.ports
        × All (LinkOk (λ l. l.flag_up) links) c.mgmt
        × All (LinkOk (λ l. l.oper_up) links) c.transit)
unfolding device_conditions
device_conditions_iff c links block_filter =
    let ports = check_port_devices c.ports links block_filter in
    let mgmt = only_if (not (length c.mgmt == 0)) (check_mgmt_devices c.mgmt links) in
    let transit = only_if (not (length c.transit == 0)) (check_transit_device c.transit links) in
    let p = check_port_devices_iff c.ports links block_filter in
    let g =
      all_true-only_if (LinkOk (λ l. l.flag_up) links) c.mgmt (check_mgmt_devices c.mgmt links)
        (check_mgmt_devices_iff c.mgmt links) in
    let t =
      all_true-only_if (LinkOk (λ l. l.oper_up) links) c.transit
        (check_transit_device c.transit links) (check_transit_device_iff c.transit links) in
    let outer = all_true-append (ports ∷ []) (mgmt ++ transit) in
    let inner = all_true-append mgmt transit in
    (
      (λ a. (
        p.0 (ground (arith, (outer.0 a).0)),
        g.0 (inner.0 (outer.0 a).1).0,
        t.0 (inner.0 (outer.0 a).1).1,
      )),
      λ h. let here = p.1 h.0 in outer.1 (ground (arith, here), inner.1 (g.1 h.1, t.1 h.2)),
    )

summary_iff : (b : Bool) → (status_true (summary b).status ≡ true) ↔ (b ≡ true)
summary_iff b = ground arith

-- When the switch's namespace opens and its links can be listed, Ready is reported exactly if every device that a slot names is
-- there and works: for every slot that is not Reserved, its port device is up and the shared filter is in
-- place, its management devices are up and filtered, and so is its transit device if it names one.
pub status-IsHealthy :
    (n_ports : ℕ) (m : MmappedSlots) (links : Links) (block_filter : Bool)
    → (out : StatusOutput) × (status n_ports m (opens (some links) block_filter) ≡ some out)
      × ((is_ready out ≡ true) ↔ IsHealthy n_ports m links block_filter)
unfolding status is_ready check_conditions
status-IsHealthy n_ports m links block_filter =
    let checks = build_ports_to_check n_ports m in
    let all = device_conditions_iff checks links block_filter in
    let sum = summary_iff (all_true (device_conditions checks links block_filter)) in
    let p = ports_iff (λ n. PortOk links n × (block_filter ≡ true)) n_ports m in
    let g = mgmt_iff (LinkOk (λ l. l.flag_up) links) n_ports m in
    let t = transit_iff (LinkOk (λ l. l.oper_up) links) n_ports m in
    (
      _,
      refl,
      (
        (λ r.
            let (a, b, c) = all.0 (sum.0 r) in
            record { ports = p.0 a; mgmt = g.0 b; transit = t.0 c }),
        λ h. sum.1 (all.1 (p.1 h.ports, g.1 h.mgmt, t.1 h.transit)),
      ),
    )
