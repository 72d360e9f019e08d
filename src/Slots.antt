-- ===== src/Slots.antt =====
-- The slots map: the records of bpf/common.h as pkg/internal/bpf re-exports them, and
-- pkg/internal/bpfmap/slots.go (access to one slot). The mapped bytes are the entries of the
-- array, one for each index; `num_slots` bounds what the accessors hand out.
pub mod Layout
pub mod Cas
pub mod Laws
pub mod Scan
pub mod Counts
pub mod Contention
pub mod Ownership
pub mod Reserved
use connector.Base.{
  ℕ, Bool, true, false, ◌&&◌, Option, none, some, ltb, ◌==◌, if◌then◌else◌, Bytes, replicate,
}

pub record MgmtCidr : Type 0 where
  pub ip : ℕ
  pub mask : ℕ
  pub ifindex : ℕ
  pub mgmt_mac : Bytes

pub record SlotItem : Type 0 where
  pub ifindex : ℕ
  pub inner_ip : ℕ
  pub transit_ifindex : ℕ
  pub transit_ip : ℕ
  pub transit_gateway_ip : ℕ
  pub transit_geneve_vni : ℕ
  pub transit_mac : Bytes
  pub mode : ℕ
  pub geneve_opts_len : ℕ
  pub mgmt_cidr_count : ℕ
  pub mgmt_cidrs : ℕ → MgmtCidr  -- entry 0 is MgmtCidrs0, entry j + 1 is MgmtCidrsExt[j]
  pub generation : ℕ
  pub flags : ℕ
  pub stats_ready : ℕ

abbrev pub inner_ip_free : ℕ
inner_ip_free = 0

abbrev pub inner_ip_reserved : ℕ
inner_ip_reserved = 4294967295

-- `[6]uint8{}`.
abbrev pub zero_mac : Bytes
zero_mac = replicate 6 0

pub record MmappedSlots : Type 0 where
  pub items : ℕ → SlotItem
  pub num_slots : ℕ

-- A write through the pointer to entry `i`.
unfoldable pub write : MmappedSlots → ℕ → (SlotItem → SlotItem) → MmappedSlots
write m i f = record m { items = λ j. if j == i then f (m.items j) else m.items j }

-- `getInnerIPPtr` and `GetSlot` hand out a pointer only within the bound.
abbrev pub in_range : MmappedSlots → ℕ → Bool
in_range m i = ltb i m.num_slots

unfoldable pub get_slot : MmappedSlots → ℕ → Option SlotItem
get_slot m i = if in_range m i then some (m.items i) else none

unfoldable pub update_slot_fields : MmappedSlots → ℕ → (SlotItem → SlotItem) → MmappedSlots
unfolding write
update_slot_fields m i f = if in_range m i then write m i f else m

-- `GetInnerIP`.
unfoldable pub get_inner_ip : MmappedSlots → ℕ → ℕ
get_inner_ip m i = if in_range m i then (m.items i).inner_ip else 0

-- `atomic.CompareAndSwapUint32` on the InnerIP word of entry `i`.
unfoldable pub compare_and_swap : MmappedSlots → ℕ → ℕ → ℕ → Bool × MmappedSlots
unfolding write
compare_and_swap m i old new =
    if (m.items i).inner_ip == old
    then (true, write m i (λ s. record s { inner_ip = new }))
    else (false, m)

unfoldable pub init_slot_reserved : MmappedSlots → ℕ → Bool × MmappedSlots
unfolding compare_and_swap update_slot_fields
init_slot_reserved m i =
    let (won, m') = compare_and_swap m i inner_ip_free inner_ip_reserved in
    if in_range m i && won
    then (
      true,
      update_slot_fields m' i (λ s. record s {
        ifindex = 0;
        transit_gateway_ip = 0;
        transit_geneve_vni = 0;
        geneve_opts_len = 0;
        transit_mac = zero_mac;
      }),
    )
    else (false, m)
