-- ===== src/Slots/Layout.antt =====
-- `NewMmappedSlots`, `getInnerIPPtr` and `GetSlot` of pkg/internal/bpfmap/slots.go: where the
-- entries lie in the mapped bytes.
use connector.Base.{ℕ, ◌+◌, ◌-◌, ◌*◌, ◌/◌, ◌%◌, ◌≤◌, ◌<◌, ◌≡◌, arith}

abbrev inner_ip_offset : ℕ
inner_ip_offset = 4

-- `(valueSize + 7) &^ 7` on a uint32: the low three bits are cleared.
pub slot_size : ℕ → ℕ
slot_size value_size = (value_size + 7) % 4294967296 / 8 * 8

-- `((mapSize + pageSize - 1) / pageSize) * pageSize`.
pub map_size : ℕ → ℕ → ℕ → ℕ
unfolding slot_size
map_size value_size max_entries page_size =
    (max_entries * slot_size value_size + page_size - 1) / page_size * page_size

-- `uintptr(slotID)*uintptr(m.slotSize)`, where the entry begins.
pub slot_offset : ℕ → ℕ → ℕ
unfolding slot_size
slot_offset value_size i = i * slot_size value_size

pub inner_ip_ptr : ℕ → ℕ → ℕ
unfolding slot_offset
inner_ip_ptr value_size i = slot_offset value_size i + inner_ip_offset

slot_size-ge : (v : ℕ) → v + 7 < 4294967296 → v ≤ slot_size v
unfolding slot_size
slot_size-ge v h = omega arith

inner_ip_ptr-aligned : (v i : ℕ) → inner_ip_ptr v i % 4 ≡ 0
unfolding inner_ip_ptr
inner_ip_ptr-aligned v i = omega arith

round_up-ge : (x p : ℕ) → 0 < p → x ≤ (x + p - 1) / p * p
round_up-ge x p h = omega arith

next_entry : (i k s : ℕ) → i < k → i * s + s ≤ k * s
next_entry i k s h = grind arith

-- Every slot of a switch with no more ports than the map has entries lies inside the mapped bytes,
-- its InnerIP word is aligned for the atomic instructions and lies inside the slot, and no
-- two slots overlap.
pub slots_disjoint :
    (v max_entries page_size i j : ℕ)
    → 8 ≤ v
    → v + 7 < 4294967296
    → 0 < page_size
    → i < max_entries
    → j < i
    → (slot_offset v i + v ≤ map_size v max_entries page_size)
      × (inner_ip_ptr v i % 4 ≡ 0)
      × (inner_ip_ptr v i + 4 ≤ slot_offset v i + v)
      × (slot_offset v j + v ≤ slot_offset v i)
unfolding map_size inner_ip_ptr
slots_disjoint v n p i j hv hw hp hi hj = (
  omega (
    arith,
    slot_size-ge v hw,
    next_entry i n (slot_size v) hi,
    round_up-ge (n * slot_size v) p hp,
  ),
  inner_ip_ptr-aligned v i,
  omega arith,
  omega (arith, slot_size-ge v hw, next_entry j i (slot_size v) hj),
)
