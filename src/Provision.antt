-- ===== src/Provision.antt =====
-- pkg/vswitch/provision.go: the devices of Reserved ports, and their turn to Free. What netlink answers is an
-- argument (true is success). `devices` are the links of the switch's namespace by interface index.
pub mod Device
pub mod Slot
pub mod Loop
pub mod All
pub mod Complete
use connector.Base.{
  ℕ, zero, suc, ◌+◌, ◌-◌, Bool, true, false, not, ◌&&◌, ◌||◌, Option, none, some, List, [], ◌∷◌,
  Result, ok, err, ltb, ◌==◌, if◌then◌else◌, Bytes, u32,
}
use connector.Ip.{is_nil}
use connector.Slots.{
  MmappedSlots, SlotItem, MgmtCidr, inner_ip_free, inner_ip_reserved, get_inner_ip,
  update_slot_fields,
}
use connector.Slots.Cas.{try_unreserve}
use connector.Config.{max_mgmt_cidr_per_slot}
use connector.Attach.Options.{port_kind_tap, port_kind_veth}
use connector.Provision.Device.{DeviceAnswers, DeviceError, provision_veth_slot, provision_tap_slot}

pub data ProvisionError : Type 0 where
  no_port_netns port_netns_failed unsupported_mode : ProvisionError
  device : ℕ → DeviceError → ProvisionError
  index_update_failed unexpected_state : ℕ → ProvisionError

-- `ifindex_to_slot` is the reverse map.
pub record Provisioned : Type 0 where
  pub slots : MmappedSlots
  pub ifindex_to_slot : ℕ → Option ℕ

-- The answers for a slot; `races` is what other processes do to the slots between the rounds that
-- free it.
pub record PortAnswers : Type 0 where
  pub devices : DeviceAnswers
  pub update_index : Bool
  pub races : List (MmappedSlots → MmappedSlots)

pub record ProvisionAnswers : Type 0 where
  pub has_index : Bool
  pub port_netns : Bool
  pub port : ℕ → PortAnswers

pub record ProvisionOptions : Type 0 where
  pub mode : ℕ
  pub port : ℕ
  pub count : ℕ

-- What is written to every slot: the management networks of each plane and the transit device.
pub record SlotInfo : Type 0 where
  pub cidrs : List (List MgmtCidr)
  pub transit_ifindex : ℕ
  pub transit_ip : ℕ

abbrev pub store_cidr : SlotItem → MgmtCidr → SlotItem
store_cidr s c = record s {
  mgmt_cidrs = λ j. if j == s.mgmt_cidr_count then c else s.mgmt_cidrs j;
  mgmt_cidr_count = s.mgmt_cidr_count + 1;
}

-- The inner loop, with its break.
unfoldable pub store_cidrs : SlotItem → List MgmtCidr → SlotItem
store_cidrs s [] = s
store_cidrs s (c ∷ cs) =
    let rest = store_cidrs (store_cidr s c) cs in
    if ltb s.mgmt_cidr_count max_mgmt_cidr_per_slot then rest else s

unfoldable pub store_planes : SlotItem → List (List MgmtCidr) → SlotItem
unfolding store_cidrs
store_planes s [] = s
store_planes s (cs ∷ css) = store_planes (store_cidrs s cs) css

unfoldable pub device_info : SlotInfo → ℕ → SlotItem → SlotItem
unfolding store_planes
device_info info ifindex s =
    let t = store_planes (record s { ifindex = ifindex; mgmt_cidr_count = 0 }) info.cidrs in
    record t { transit_ifindex = info.transit_ifindex; transit_ip = info.transit_ip }

unfoldable pub write_slot_device_info : SlotInfo → ℕ → ℕ → MmappedSlots → MmappedSlots
unfolding device_info
write_slot_device_info info ifindex i m = update_slot_fields m i (device_info info ifindex)

abbrev pub set_index : ℕ → Option ℕ → (ℕ → Option ℕ) → ℕ → Option ℕ
set_index key value index k = if k == key then value else index k

abbrev pub points_to : Option ℕ → ℕ → Bool
points_to none i = false
points_to (some j) i = j == i

-- A reverse entry is deleted only while it still points at the slot.
unfoldable pub drop_index : Bool → ℕ → ℕ → (ℕ → Option ℕ) → ℕ → Option ℕ
drop_index has_index old i index =
    if has_index && not (old == 0) && points_to (index old) i
    then set_index old none index
    else index

abbrev pub for_slot : ℕ → Result DeviceError ℕ → Result ProvisionError ℕ
for_slot i (ok n) = ok n
for_slot i (err e) = err (device i e)

-- The slot's device is made before anything else changes.
unfoldable pub make_device : ProvisionAnswers → Bytes → ℕ → ℕ → Result ProvisionError ℕ
unfolding provision_veth_slot provision_tap_slot
make_device k port_netns mode i =
    if mode == port_kind_veth
    then (if is_nil port_netns
        then err no_port_netns
        else if not k.port_netns
        then err port_netns_failed
        else for_slot i (provision_veth_slot (k.port i).devices).0)
    else if mode == port_kind_tap
    then for_slot i (provision_tap_slot (k.port i).devices).0
    else err unsupported_mode

abbrev pub with_mode : ℕ → ℕ → MmappedSlots → MmappedSlots
with_mode mode i m = update_slot_fields m i (λ s. record s { mode = mode })

-- Step 2: the slot is written.
unfoldable pub write_device : SlotInfo → ℕ → ℕ → ℕ → MmappedSlots → MmappedSlots
unfolding write_slot_device_info
write_device info mode i new m = with_mode mode i (write_slot_device_info info new i m)

-- Step 1: the stale reverse entry goes.
unfoldable pub drop_stale : ProvisionAnswers → ℕ → ℕ → ℕ → (ℕ → Option ℕ) → ℕ → Option ℕ
unfolding drop_index
drop_stale k i old new index =
    if not (new == old) then drop_index k.has_index old i index else index

-- Step 3: the new entry.
unfoldable pub insert_new : ProvisionAnswers → ℕ → ℕ → ℕ → (ℕ → Option ℕ) → ℕ → Option ℕ
insert_new k i old new index =
    if not (new == old) && k.has_index then set_index new (some i) index else index

-- Step 4: the device of the previous mode goes, with its reverse entry; a failure is only printed.
unfoldable pub delete_old_slot_device :
    ProvisionAnswers → ℕ → Bool → ℕ → (ℕ → Option ℕ) → ℕ → Option ℕ
unfolding drop_index
delete_old_slot_device k i switches old index =
    if switches then drop_index k.has_index old i index else index

-- The loop that frees the slot. Each round that fails uses one interference; none follows the last.
unfoldable pub free_slot :
    List (MmappedSlots → MmappedSlots)
    → ℕ
    → MmappedSlots
    → Result ProvisionError (Unit {0}) × MmappedSlots
free_slot [] i m =
    let (won, n) = try_unreserve m i in
    if won || get_inner_ip n i == inner_ip_free then (ok tt, n) else (err (unexpected_state i), n)
free_slot (f ∷ fs) i m =
    let (won, n) = try_unreserve m i in
    let rest = free_slot fs i (f n) in
    if won
    then (ok tt, n)
    else if get_inner_ip (f n) i == inner_ip_free
    then (ok tt, f n)
    else if get_inner_ip (f n) i == inner_ip_reserved
    then rest
    else (err (unexpected_state i), f n)

abbrev pub freed :
    Result ProvisionError (Unit {0}) × MmappedSlots
    → (ℕ → Option ℕ)
    → Result ProvisionError (Unit {0}) × Provisioned
freed (r, m) index = (r, record { slots = m; ifindex_to_slot = index })

-- Steps 1 to 4 and the freeing, for a slot that had `old` and gets the device `new`.
unfoldable pub install :
    ProvisionAnswers
    → SlotInfo
    → ℕ
    → ℕ
    → Bool
    → ℕ
    → ℕ
    → Provisioned
    → Result ProvisionError (Unit {0}) × Provisioned
unfolding write_device drop_stale insert_new delete_old_slot_device free_slot
install k info mode i switches old new p =
    let slots = write_device info mode i new p.slots in
    let dropped = drop_stale k i old new p.ifindex_to_slot in
    let inserted = insert_new k i old new dropped in
    if (not (new == old) && k.has_index) && not (k.port i).update_index
    then (err (index_update_failed i), record { slots = slots; ifindex_to_slot = dropped })
    else freed (free_slot (k.port i).races i slots)
        (delete_old_slot_device k i switches old inserted)

abbrev pub with_device :
    ProvisionAnswers
    → SlotInfo
    → ℕ
    → ℕ
    → Result ProvisionError ℕ
    → Provisioned
    → Result ProvisionError (Unit {0}) × Provisioned
with_device k info mode i (err e) p = (err e, p)
with_device k info mode i (ok n) p =
    let slot = p.slots.items i in
    install k info mode i (not (slot.ifindex == 0) && not (slot.mode == mode)) slot.ifindex (u32 n)
      p

-- One Reserved slot.
unfoldable pub provision_slot :
    ProvisionAnswers
    → Bytes
    → SlotInfo
    → ℕ
    → ℕ
    → Provisioned
    → Result ProvisionError (Unit {0}) × Provisioned
unfolding install make_device
provision_slot k port_netns info mode i p =
    with_device k info mode i (make_device k port_netns mode i) p
