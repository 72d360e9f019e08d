-- ===== src/Slots/Scan.antt =====
-- `FindFreeSlot` of pkg/internal/bpfmap/slots.go: the first Free slot that the CAS wins.
use connector.Base.{
  ℕ, zero, suc, ◌+◌, ◌≤◌, ◌<◌, ◌≡◌, refl, ◌≢◌, ◌⊎◌, inl, inr, true, false, arith, ap, Result, ok,
  err, Bool-cases, ◌==◌, if◌then◌else◌, ==_iff,
}
use connector.Slots.{MmappedSlots, inner_ip_free}
use connector.Slots.Cas.{try_allocate}
use connector.Slots.Laws.{SameBut, try_allocate_wins, try_allocate_loses}

pub data ScanError : Type 0 where
  no_free_slots : ScanError

-- `rounds` counts the iterations left, so slot `i` is below the bound in each.
find_from : MmappedSlots → ℕ → ℕ → ℕ → Result ScanError ℕ × MmappedSlots
find_from m i ip zero = (err no_free_slots, m)
find_from m i ip (suc rounds) =
    let (won, m') = try_allocate m i ip in
    let rest = find_from m' (i + 1) ip rounds in if won then (ok i, m') else rest

unfoldable pub find_free_slot : MmappedSlots → ℕ → Result ScanError ℕ × MmappedSlots
unfolding find_from
find_free_slot m ip = find_from m 0 ip m.num_slots

-- No slot of the range [i, k) is Free.
abbrev pub NoneFree : MmappedSlots → ℕ → ℕ → Type 0
NoneFree m i k = (j : ℕ) → i ≤ j → j < k → (m.items j).inner_ip ≢ inner_ip_free

find_from_full :
    (m : MmappedSlots) (i ip rounds : ℕ)
    → NoneFree m i (i + rounds)
    → find_from m i ip rounds ≡ (err no_free_slots, m)
unfolding find_from
find_from_full m i ip zero none_free = refl
find_from_full m i ip (suc rounds) none_free =
    rw (try_allocate_loses m i ip (inr (none_free i (omega arith) (omega arith))))
      (find_from_full m (i + 1) ip rounds (λ j p q. none_free j (omega arith) (omega arith)))

find_from_first :
    (m : MmappedSlots) (i ip rounds k : ℕ)
    → i ≤ k
    → k < i + rounds
    → k < m.num_slots
    → NoneFree m i k
    → (m.items k).inner_ip ≡ inner_ip_free
    → find_from m i ip rounds ≡ (ok k, (try_allocate m k ip).1)
unfolding find_from
find_from_first m i ip zero k p q b none_free free = absurd (omega arith)
find_from_first m i ip (suc rounds) k p q b none_free free = elim (Bool-cases (i == k)) [
  | inl e ↦ rw ((==_iff i k).0 e, (try_allocate_wins m k ip b free).0)
  | inr ne ↦ rw (try_allocate_loses m i ip (inr (none_free i (omega arith) (ground arith)))) (
      find_from_first m (i + 1) ip rounds k (ground arith) (omega arith) b
        (λ j p' q'. none_free j (omega arith) q') free)
]

-- If every slot is taken, the scan fails and changes nothing.
pub find_free_slot_full :
    (m : MmappedSlots) (ip : ℕ)
    → NoneFree m 0 m.num_slots
    → find_free_slot m ip ≡ (err no_free_slots, m)
unfolding find_free_slot
find_free_slot_full m ip none_free =
    find_from_full m 0 ip m.num_slots (λ j p q. none_free j p (omega arith))

-- Otherwise it claims the lowest Free slot, and no other.
pub find_free_slot_first :
    (m : MmappedSlots) (ip k : ℕ)
    → k < m.num_slots
    → NoneFree m 0 k
    → (m.items k).inner_ip ≡ inner_ip_free
    → (find_free_slot m ip ≡ (ok k, (try_allocate m k ip).1))
      × ((((find_free_slot m ip).1.items k).inner_ip) ≡ ip)
      × SameBut k m (find_free_slot m ip).1
unfolding find_free_slot
find_free_slot_first m ip k b none_free free =
    let e = find_from_first m 0 ip m.num_slots k (omega arith) (omega arith) b none_free free in
    let (_, item, same) = try_allocate_wins m k ip b free in
    (e, rw e (ap (λ s. s.inner_ip) item), rw e same)

-- What a call of `TryAllocate` can do, by its result.
pub try_allocate-cases :
    (m : MmappedSlots) (i ip : ℕ)
    → ((try_allocate m i ip).0 ≡ true) × (i < m.num_slots) × ((m.items i).inner_ip ≡ inner_ip_free)
      ⊎ (try_allocate m i ip ≡ (false, m))
unfolding try_allocate
try_allocate-cases m i ip = ground arith

-- The slot that a scan returns was Free and is claimed; a scan that fails changes nothing.
abbrev pub Scanned : MmappedSlots → ℕ → Result ScanError ℕ × MmappedSlots → Type 0
Scanned m ip (ok k, m') =
    (k < m.num_slots) × ((m.items k).inner_ip ≡ inner_ip_free) × (m' ≡ (try_allocate m k ip).1)
Scanned m ip (err _, m') = m' ≡ m

find_from-Scanned : (m : MmappedSlots) (i ip rounds : ℕ) → Scanned m ip (find_from m i ip rounds)
unfolding find_from
find_from-Scanned m i ip zero = refl
find_from-Scanned m i ip (suc rounds) = elim (try_allocate-cases m i ip) [
  | inl (won, range, free) ↦ rw won (range, free, refl)
  | inr lost ↦ rw lost (find_from-Scanned m (i + 1) ip rounds)
]

pub find_free_slot-Scanned : (m : MmappedSlots) (ip : ℕ) → Scanned m ip (find_free_slot m ip)
unfolding find_free_slot
find_free_slot-Scanned m ip = find_from-Scanned m 0 ip m.num_slots
