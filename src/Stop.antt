-- ===== src/Stop.antt =====
-- pkg/vswitch/stop.go: the release of a switch's ports before it is stopped. `fs` lists what other
-- processes do between the read and the CAS of each slot that a pass finds to reserve; after the last
-- one nobody interferes any more. The links and the reverse index are the kernel's answers.
pub mod Release
pub mod Passes
pub mod Devices
pub mod Released
use connector.Base.{
  ℕ, zero, suc, ◌+◌, ◌-◌, Bool, true, false, not, ◌&&◌, ◌||◌, List, [], ◌∷◌, Result, ok, err, ◌==◌,
  ltb, leb, if◌then◌else◌, length, u32,
}
use connector.Slots.{
  SlotItem, MgmtCidr, MmappedSlots, get_inner_ip, update_slot_fields, inner_ip_free,
  inner_ip_reserved,
}
use connector.Slots.Cas.{is_slot_allocated, try_reserve}
use connector.Slots.Counts.{count_upto}

pub data StopError : Type 0 where
  ports_in_use link_not_deleted index_not_deleted ports_not_released : StopError
  lock_failed no_netns still_contended no_cleanup : StopError

-- The answers to the deletion of a link, and of an entry of ifindex_to_slot.
pub data Answer : Type 0 where
  deleted missing failed : Answer

pub record StopKernel : Type 0 where
  pub lock_fails : Bool
  pub netns_fails : Bool
  pub del_link : ℕ → Answer
  pub has_index : Bool
  pub del_index : ℕ → Answer

abbrev pub count_allocated : MmappedSlots → ℕ → ℕ
count_allocated m n = count_upto is_slot_allocated m n

-- A pass over the slots ended, or a CAS failed.
pub data Pass : Type 0 where
  done conflict : MmappedSlots → List (MmappedSlots → MmappedSlots) → Pass

abbrev pub interfered : List (MmappedSlots → MmappedSlots) → MmappedSlots → MmappedSlots
interfered [] m = m
interfered (f ∷ _) m = f m

abbrev pub rest_of : List (MmappedSlots → MmappedSlots) → List (MmappedSlots → MmappedSlots)
rest_of [] = []
rest_of (_ ∷ fs) = fs

-- The inner loop; `wanted` says which states are reserved.
unfoldable pub reserve_pass :
    (ℕ → Bool) → ℕ → ℕ → List (MmappedSlots → MmappedSlots) → MmappedSlots → Pass
reserve_pass wanted i zero fs m = done m fs
reserve_pass wanted i (suc rounds) fs m =
    let ip = get_inner_ip m i in
    let r = try_reserve (interfered fs m) i ip in
    let skipped = reserve_pass wanted (i + 1) rounds fs m in
    let reserved = reserve_pass wanted (i + 1) rounds (rest_of fs) r.1 in
    if not (wanted ip) then skipped else if r.0 then reserved else conflict r.1 (rest_of fs)

abbrev pub is_free : ℕ → Bool
is_free ip = ip == inner_ip_free

abbrev pub not_reserved : ℕ → Bool
not_reserved ip = not (ip == inner_ip_reserved)

-- After a conflict: an allocated slot is an error, otherwise the pass starts again.
abbrev pub restart_free :
    ℕ
    → MmappedSlots
    → Result StopError (Unit {0}) × MmappedSlots
    → Result StopError (Unit {0}) × MmappedSlots
restart_free n m again = if ltb 0 (count_allocated m n) then (err ports_in_use, m) else again

abbrev pub after_free :
    ℕ
    → (List (MmappedSlots → MmappedSlots)
        → MmappedSlots
        → Result StopError (Unit {0}) × MmappedSlots)
    → Pass
    → Result StopError (Unit {0}) × MmappedSlots
after_free n again (done m fs) = (ok tt, m)
after_free n again (conflict m fs) = restart_free n m (again fs m)

abbrev pub after_all :
    (List (MmappedSlots → MmappedSlots) → MmappedSlots → Result StopError (Unit {0}) × MmappedSlots)
    → Pass
    → Result StopError (Unit {0}) × MmappedSlots
after_all again (done m fs) = (ok tt, m)
after_all again (conflict m fs) = again fs m

-- The outer loop. Each restart follows an interference, so one round more than there are of them is
-- enough.
unfoldable pub reserve_free_from :
    ℕ
    → ℕ
    → List (MmappedSlots → MmappedSlots)
    → MmappedSlots
    → Result StopError (Unit {0}) × MmappedSlots
reserve_free_from zero n fs m = (err still_contended, m)
reserve_free_from (suc fuel) n fs m =
    after_free n (reserve_free_from fuel n) (reserve_pass is_free 0 n fs m)

unfoldable pub reserve_free_slots :
    ℕ
    → List (MmappedSlots → MmappedSlots)
    → MmappedSlots
    → Result StopError (Unit {0}) × MmappedSlots
unfolding reserve_free_from
reserve_free_slots n fs m = reserve_free_from (suc (length fs)) n fs m

unfoldable pub reserve_all_from :
    ℕ
    → ℕ
    → List (MmappedSlots → MmappedSlots)
    → MmappedSlots
    → Result StopError (Unit {0}) × MmappedSlots
reserve_all_from zero n fs m = (err still_contended, m)
reserve_all_from (suc fuel) n fs m =
    after_all (reserve_all_from fuel n) (reserve_pass not_reserved 0 n fs m)

unfoldable pub reserve_all_slots :
    ℕ
    → List (MmappedSlots → MmappedSlots)
    → MmappedSlots
    → Result StopError (Unit {0}) × MmappedSlots
unfolding reserve_all_from
reserve_all_slots n fs m = reserve_all_from (suc (length fs)) n fs m

pub record PortIface : Type 0 where
  pub slot_id : ℕ
  pub ifindex : ℕ

-- The ports among `rounds` slots from `i` that have a device.
unfoldable pub collect_ports : MmappedSlots → ℕ → ℕ → List PortIface
collect_ports m i zero = []
collect_ports m i (suc rounds) =
    let rest = collect_ports m (i + 1) rounds in
    if (m.items i).ifindex == 0
    then rest
    else record { slot_id = i; ifindex = (m.items i).ifindex } ∷ rest

unfoldable pub collect_port_interfaces : MmappedSlots → ℕ → List PortIface
unfolding collect_ports
collect_port_interfaces m n = collect_ports m 0 n

abbrev pub no_device : SlotItem → SlotItem
no_device item = record item { ifindex = 0 }

abbrev pub is_failed : Answer → Bool
is_failed failed = true
is_failed _ = false

unfoldable pub delete_port_interfaces :
    StopKernel → List PortIface → MmappedSlots → Result StopError (Unit {0}) × MmappedSlots
delete_port_interfaces k [] m = (ok tt, m)
delete_port_interfaces k (p ∷ ps) m =
    let rest = delete_port_interfaces k ps (update_slot_fields m p.slot_id no_device) in
    if is_failed (k.del_link p.ifindex)
    then (err link_not_deleted, m)
    else if k.has_index && is_failed (k.del_index p.ifindex)
    then (err index_not_deleted, m)
    else rest

-- Reserved and without a device, for each slot of the switch.
unfoldable pub validate_from : MmappedSlots → ℕ → ℕ → Result StopError (Unit {0})
validate_from m i zero = ok tt
validate_from m i (suc rounds) =
    let rest = validate_from m (i + 1) rounds in
    if not (get_inner_ip m i == inner_ip_reserved) || not ((m.items i).ifindex == 0)
    then err ports_not_released
    else rest

unfoldable pub validate_all_released : MmappedSlots → ℕ → Result StopError (Unit {0})
unfolding validate_from
validate_all_released m n = validate_from m 0 n

unfoldable pub count_ports_with_devices : MmappedSlots → ℕ → ℕ
count_ports_with_devices m zero = 0
count_ports_with_devices m (suc n) =
    let count = count_ports_with_devices m n in
    if (m.items n).ifindex == 0 then count else count + 1
