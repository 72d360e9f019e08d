-- ===== src/Slots/Cas.antt =====
-- pkg/internal/bpfmap/cas.go: the compare-and-swap operations on the InnerIP word, which is also
-- the slot's ownership state (Free, Reserved, or the address of the sandbox that holds it).
use connector.Base.{ℕ, Bool, true, false, not, ◌||◌, ◌==◌, if◌then◌else◌}
use connector.Slots.{
  MmappedSlots, inner_ip_free, inner_ip_reserved, write, in_range, compare_and_swap,
}

abbrev pub is_slot_free_or_reserved : ℕ → Bool
is_slot_free_or_reserved ip = ip == inner_ip_free || ip == inner_ip_reserved

abbrev pub is_slot_allocated : ℕ → Bool
is_slot_allocated ip = not (is_slot_free_or_reserved ip)

unfoldable pub try_allocate : MmappedSlots → ℕ → ℕ → Bool × MmappedSlots
unfolding compare_and_swap write
try_allocate m i ip =
    let (won, m') = compare_and_swap m i inner_ip_free ip in
    if not (in_range m i)
    then (false, m)
    else if not won
    then (false, m)
    else (true, write m' i (λ s. record s { stats_ready = 0 }))

unfoldable pub try_release : MmappedSlots → ℕ → ℕ → Bool × MmappedSlots
unfolding compare_and_swap
try_release m i current = if not (in_range m i) then (false, m) else compare_and_swap m i current 0

unfoldable pub try_reserve : MmappedSlots → ℕ → ℕ → Bool × MmappedSlots
unfolding compare_and_swap
try_reserve m i current =
    if current == inner_ip_reserved
    then (false, m)
    else if not (in_range m i)
    then (false, m)
    else compare_and_swap m i current inner_ip_reserved

unfoldable pub try_unreserve : MmappedSlots → ℕ → Bool × MmappedSlots
unfolding compare_and_swap write
try_unreserve m i =
    if not (in_range m i)
    then (false, m)
    else if not ((m.items i).inner_ip == inner_ip_reserved)
    then (false, m)
    else compare_and_swap (write m i (λ s. record s { flags = 0 })) i inner_ip_reserved
        inner_ip_free

unfoldable pub try_update_inner_ip : MmappedSlots → ℕ → ℕ → ℕ → Bool × MmappedSlots
unfolding compare_and_swap
try_update_inner_ip m i old new =
    if not (is_slot_allocated old) || not (is_slot_allocated new)
    then (false, m)
    else if in_range m i
    then compare_and_swap m i old new
    else (false, m)
