-- ===== src/Status/Walk.antt =====
-- The devices that the slots name (pkg/vswitch/status.go, buildPortsToCheck).
use connector.Base.{
  ℕ, zero, suc, ◌+◌, ◌-◌, Bool, false, ◌||◌, List, [], ◌∷◌, ◌++◌, ltb, ◌==◌, if◌then◌else◌,
}
use connector.Slots.{MmappedSlots, SlotItem, inner_ip_reserved, get_inner_ip}
use connector.Config.{max_mgmt_cidr_per_slot}

pub record PortCheck : Type 0 where
  pub slot_id : ℕ
  pub port_ifindex : ℕ

-- The checks to make: ports, and the indexes of management and transit devices, each once.
pub record Checks : Type 0 where
  pub ports : List PortCheck
  pub mgmt : List ℕ
  pub transit : List ℕ

abbrev pub has_member : ℕ → List ℕ → Bool
has_member n [] = false
has_member n (x ∷ xs) = n == x || has_member n xs

-- A key is put into the set, unless it is 0.
abbrev pub add_device : ℕ → List ℕ → List ℕ
add_device n set = if n == 0 || has_member n set then set else n ∷ set

-- The networks beyond the first, of which at most `left` are to come.
unfoldable pub ext_devices : ℕ → ℕ → SlotItem → List ℕ → List ℕ
ext_devices zero j s set = set
ext_devices (suc left) j s set =
    let rest = ext_devices left (j + 1) s (add_device (s.mgmt_cidrs j).ifindex set) in
    if ltb j s.mgmt_cidr_count then rest else set

unfoldable pub mgmt_devices : SlotItem → List ℕ → List ℕ
unfolding ext_devices
mgmt_devices s set =
    ext_devices (max_mgmt_cidr_per_slot - 1) 1 s
      (if ltb 0 s.mgmt_cidr_count then add_device (s.mgmt_cidrs 0).ifindex set else set)

-- One slot that is not Reserved.
abbrev pub check_slot : ℕ → SlotItem → Checks → Checks
check_slot i s c = record {
  ports = c.ports ++ record { slot_id = i; port_ifindex = s.ifindex } ∷ [];
  mgmt = mgmt_devices s c.mgmt;
  transit = add_device s.transit_ifindex c.transit;
}

unfoldable pub checks_from : MmappedSlots → ℕ → ℕ → Checks → Checks
unfolding mgmt_devices
checks_from m zero i c = c
checks_from m (suc left) i c =
    checks_from m left (i + 1)
      (if get_inner_ip m i == inner_ip_reserved then c else check_slot i (m.items i) c)

unfoldable pub build_ports_to_check : ℕ → MmappedSlots → Checks
unfolding checks_from
build_ports_to_check n_ports m =
    checks_from m n_ports 0 (record { ports = []; mgmt = []; transit = [] })
