-- ===== src/Stop/Release.antt =====
-- ReleasePorts, StopReleased and Stop of pkg/vswitch/stop.go.
use connector.Base.{
  ℕ, zero, suc, ◌+◌, ◌-◌, Bool, true, false, not, ◌||◌, List, [], ◌∷◌, Result, ok, err, ◌==◌, ltb,
  leb, if◌then◌else◌,
}
use connector.Slots.{SlotItem, MgmtCidr, MmappedSlots, update_slot_fields, zero_mac}
use connector.Stop.{
  StopError, StopKernel, is_failed, lock_failed, no_netns, ports_in_use, link_not_deleted,
  count_allocated, reserve_free_slots, reserve_all_slots, collect_port_interfaces,
  delete_port_interfaces, validate_all_released, count_ports_with_devices, no_cleanup,
}

pub record ReleaseOutput : Type 0 where
  pub released : ℕ
  pub total : ℕ
  pub remaining : ℕ

abbrev pub then_slots :
    {A B : Type 0}
    → Result StopError A × MmappedSlots
    → (MmappedSlots → Result StopError B × MmappedSlots)
    → Result StopError B × MmappedSlots
then_slots (ok a, m) f = f m
then_slots (err e, m) f = (err e, m)

abbrev pub delete_collected :
    StopKernel → ℕ → MmappedSlots → Result StopError (Unit {0}) × MmappedSlots
delete_collected k n m = delete_port_interfaces k (collect_port_interfaces m n) m

-- Force mode: the result of the first pass is not looked at.
unfoldable pub release_forced :
    StopKernel
    → ℕ
    → List (MmappedSlots → MmappedSlots)
    → List (MmappedSlots → MmappedSlots)
    → MmappedSlots
    → Result StopError (Unit {0}) × MmappedSlots
release_forced k n fs gs m =
    then_slots (delete_collected k n (reserve_free_slots n fs m).1)
      (λ m2. delete_collected k n (reserve_all_slots n gs m2).1)

unfoldable pub release_safely :
    StopKernel
    → ℕ
    → List (MmappedSlots → MmappedSlots)
    → MmappedSlots
    → Result StopError (Unit {0}) × MmappedSlots
release_safely k n fs m =
    if ltb 0 (count_allocated m n)
    then (err ports_in_use, m)
    else then_slots (reserve_free_slots n fs m) (delete_collected k n)

abbrev pub counted :
    ℕ
    → ℕ
    → Result StopError (Unit {0}) × MmappedSlots
    → Result StopError ReleaseOutput × MmappedSlots
counted n before (err e, m) = (err e, m)
counted n before (ok _, m) = (
  ok (record {
    released = before - count_ports_with_devices m n;
    total = n;
    remaining = count_ports_with_devices m n;
  }),
  m,
)

-- Behind the control lock and the switch's namespace.
abbrev pub gated :
    {A : Type 0}
    → Bool
    → Bool
    → MmappedSlots
    → Result StopError A × MmappedSlots
    → Result StopError A × MmappedSlots
gated lock_fails netns_fails m r =
    if lock_fails then (err lock_failed, m) else if netns_fails then (err no_netns, m) else r

unfoldable pub release_ports :
    StopKernel
    → Bool
    → ℕ
    → List (MmappedSlots → MmappedSlots)
    → List (MmappedSlots → MmappedSlots)
    → MmappedSlots
    → Result StopError ReleaseOutput × MmappedSlots
unfolding release_forced release_safely
release_ports k force n fs gs m = gated k.lock_fails k.netns_fails m (
    counted n (count_ports_with_devices m n)
      (if force then release_forced k n fs gs m else release_safely k n fs m))

-- The management devices that the slots name; a set, so an index that occurs twice counts once.
abbrev pub member : ℕ → List ℕ → Bool
member x [] = false
member x (y ∷ ys) = x == y || member x ys

abbrev pub insert : ℕ → List ℕ → List ℕ
insert x xs = if x == 0 || member x xs then xs else x ∷ xs

-- `j` counts up to the slot's CIDRs, of which three fit.
collect_cidrs : (ℕ → MgmtCidr) → ℕ → ℕ → List ℕ → List ℕ
collect_cidrs cidrs j zero set = set
collect_cidrs cidrs j (suc rounds) set =
    collect_cidrs cidrs (j + 1) rounds (insert (cidrs j).ifindex set)

abbrev min3 : ℕ → ℕ
min3 n = if leb n 3 then n else 3

collect_mgmt : MmappedSlots → ℕ → ℕ → List ℕ → List ℕ
collect_mgmt m i zero set = set
collect_mgmt m i (suc rounds) set =
    collect_mgmt m (i + 1) rounds
      (collect_cidrs (m.items i).mgmt_cidrs 0 (min3 (m.items i).mgmt_cidr_count) set)

-- A slice of the map of management devices in some order.
delete_mgmt : StopKernel → List ℕ → Bool
delete_mgmt k [] = true
delete_mgmt k (x ∷ xs) =
    let rest = delete_mgmt k xs in if is_failed (k.del_link x) then false else rest

abbrev zero_cidr : MgmtCidr
zero_cidr = record { ip = 0; mask = 0; ifindex = 0; mgmt_mac = zero_mac }

abbrev pub no_mgmt : SlotItem → SlotItem
no_mgmt item = record item { mgmt_cidr_count = 0; mgmt_cidrs = λ j. zero_cidr }

abbrev has_mgmt : SlotItem → Bool
has_mgmt item = ltb 0 item.mgmt_cidr_count || not ((item.mgmt_cidrs 0).ifindex == 0)

clear_mgmt : MmappedSlots → ℕ → MmappedSlots
clear_mgmt m zero = m
clear_mgmt m (suc n) =
    let m' = clear_mgmt m n in if has_mgmt (m'.items n) then update_slot_fields m' n no_mgmt else m'

-- What follows the validation, up to the devices outside the slots: the cleanup of the transit device,
-- of the anchor device and of the pinned maps is the kernel's answer `cleanup_fails`.
unfoldable pub stop_released :
    StopKernel → Bool → ℕ → MmappedSlots → Result StopError (Unit {0}) × MmappedSlots
unfolding collect_mgmt collect_cidrs delete_mgmt clear_mgmt
stop_released k cleanup_fails n m =
    if k.lock_fails
    then (err lock_failed, m)
    else then_slots (validate_all_released m n, m)
        (λ m.
          if k.netns_fails
          then (err no_netns, m)
          else if not (delete_mgmt k (collect_mgmt m 0 n []))
          then (err link_not_deleted, m)
          else if cleanup_fails
          then (err no_cleanup, clear_mgmt m n)
          else (ok tt, clear_mgmt m n))

unfoldable pub stop :
    StopKernel
    → Bool
    → Bool
    → ℕ
    → List (MmappedSlots → MmappedSlots)
    → List (MmappedSlots → MmappedSlots)
    → MmappedSlots
    → Result StopError (Unit {0}) × MmappedSlots
stop k cleanup_fails force n fs gs m =
    then_slots (release_ports k force n fs gs m) (stop_released k cleanup_fails n)
