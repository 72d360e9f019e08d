-- ===== src/Slots/Laws.antt =====
-- What the compare-and-swap operations of pkg/internal/bpfmap/cas.go do to the slots.
use connector.Base.{ℕ, ◌≤◌, ◌<◌, ◌≡◌, ◌≢◌, ◌⊎◌, true, false, arith}
use connector.Slots.{SlotItem, MmappedSlots, inner_ip_free, update_slot_fields}
use connector.Slots.Cas.{try_allocate, try_release}

-- Two maps that differ at most in entry `i`.
pub record SameBut (i : ℕ) (m n : MmappedSlots) : Type 0 where
  pub others : (j : ℕ) → j ≢ i → n.items j ≡ m.items j
  pub bound : n.num_slots ≡ m.num_slots

-- `TryAllocate` wins exactly when the slot is in range and Free. The winner sets the address and
-- withdraws the statistics of the previous attachment, and touches no other slot.
pub try_allocate_wins :
    (m : MmappedSlots) (i ip : ℕ)
    → i < m.num_slots
    → (m.items i).inner_ip ≡ inner_ip_free
    → ((try_allocate m i ip).0 ≡ true)
      × ((try_allocate m i ip).1.items i ≡ record (m.items i) { inner_ip = ip; stats_ready = 0 })
      × SameBut i m (try_allocate m i ip).1
unfolding try_allocate
try_allocate_wins m i ip h free =
    (ground arith, ground arith, record { others = λ j ne. ground arith; bound = ground arith })

-- In every other case it loses and changes nothing.
pub try_allocate_loses :
    (m : MmappedSlots) (i ip : ℕ)
    → (m.num_slots ≤ i) ⊎ ((m.items i).inner_ip ≢ inner_ip_free)
    → try_allocate m i ip ≡ (false, m)
unfolding try_allocate
try_allocate_loses m i ip h = ground arith

-- An update within the bound rewrites its slot, and no other.
pub update_at :
    (m : MmappedSlots) (i : ℕ) (f : SlotItem → SlotItem)
    → i < m.num_slots
    → (update_slot_fields m i f).items i ≡ f (m.items i)
unfolding update_slot_fields
update_at m i f h = ground arith

pub update_bound :
    (m : MmappedSlots) (i : ℕ) (f : SlotItem → SlotItem)
    → (update_slot_fields m i f).num_slots ≡ m.num_slots
unfolding update_slot_fields
update_bound m i f = ground arith

pub update-SameBut :
    (m n : MmappedSlots) (i : ℕ) (f : SlotItem → SlotItem)
    → SameBut i m n
    → SameBut i m (update_slot_fields n i f)
unfolding update_slot_fields
update-SameBut m n i f s = record {
  others = λ j ne. ground (arith, s.others j ne);
  bound = ground (arith, s.bound);
}

-- A release wins exactly for the address that the slot holds, and frees that slot alone.
pub try_release_wins :
    (m : MmappedSlots) (i ip : ℕ)
    → i < m.num_slots
    → (m.items i).inner_ip ≡ ip
    → ((try_release m i ip).0 ≡ true)
      × ((try_release m i ip).1.items i ≡ record (m.items i) { inner_ip = inner_ip_free })
      × SameBut i m (try_release m i ip).1
unfolding try_release
try_release_wins m i ip h e =
    (ground arith, ground arith, record { others = λ j ne. ground arith; bound = ground arith })

pub try_release_loses :
    (m : MmappedSlots) (i ip : ℕ)
    → (m.num_slots ≤ i) ⊎ ((m.items i).inner_ip ≢ ip)
    → try_release m i ip ≡ (false, m)
unfolding try_release
try_release_loses m i ip h = ground arith
