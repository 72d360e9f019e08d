-- ===== src/Slots/Counts.antt =====
-- The three counting loops of pkg/internal/bpfmap/slots.go.
use connector.Base.{
  ℕ, zero, suc, ◌+◌, ◌≤◌, ◌<◌, ◌≡◌, Bool, arith, ◌==◌, if◌then◌else◌, u32, Bool-cases, ==_iff, inl,
  inr, false,
}
use connector.Slots.{MmappedSlots, inner_ip_free, inner_ip_reserved, get_inner_ip}
use connector.Slots.Cas.{is_slot_allocated}

-- `for i := 0; i < n; i++ { if test(GetInnerIP(i)) { count++ } }` over a uint32 counter.
pub count_upto : (ℕ → Bool) → MmappedSlots → ℕ → ℕ
count_upto test m zero = 0
count_upto test m (suc n) =
    let count = count_upto test m n in if test (get_inner_ip m n) then u32 (count + 1) else count

unfoldable pub count_allocated_slots : MmappedSlots → ℕ
count_allocated_slots m = count_upto is_slot_allocated m m.num_slots

unfoldable pub count_reserved_slots : MmappedSlots → ℕ
count_reserved_slots m = count_upto (λ ip. ip == inner_ip_reserved) m m.num_slots

unfoldable pub count_free_slots : MmappedSlots → ℕ
count_free_slots m = count_upto (λ ip. ip == inner_ip_free) m m.num_slots

pub count_upto-le : (test : ℕ → Bool) (m : MmappedSlots) (n : ℕ) → count_upto test m n ≤ n
unfolding count_upto
count_upto-le test m zero = omega arith
count_upto-le test m (suc n) = ground (arith, count_upto-le test m n)

counts_upto :
    (m : MmappedSlots) (n : ℕ)
    → n < 4294967296
    → count_upto is_slot_allocated m n
        + count_upto (λ ip. ip == inner_ip_reserved) m n
        + count_upto (λ ip. ip == inner_ip_free) m n
      ≡ n
unfolding count_upto
counts_upto m zero h = omega arith
counts_upto m (suc n) h = ground (
  arith,
  counts_upto m n (omega arith),
  count_upto-le is_slot_allocated m n,
  count_upto-le (λ ip. ip == inner_ip_reserved) m n,
  count_upto-le (λ ip. ip == inner_ip_free) m n,
)

-- The numbers that `status` reports as used, reserved and available add up to the number of ports.
pub counts_partition :
    (m : MmappedSlots)
    → m.num_slots < 4294967296
    → count_allocated_slots m + count_reserved_slots m + count_free_slots m ≡ m.num_slots
unfolding count_allocated_slots count_reserved_slots count_free_slots
counts_partition m h = counts_upto m m.num_slots h

pub count_upto-zero :
    (test : ℕ → Bool) (m : MmappedSlots) (n j : ℕ)
    → n < 4294967296
    → count_upto test m n ≡ 0
    → j < n
    → test (get_inner_ip m j) ≡ false
unfolding count_upto
count_upto-zero test m zero j b z h = absurd (omega arith)
count_upto-zero test m (suc n) j b z h = elim (Bool-cases (test (get_inner_ip m n))) [
  | inl e ↦ let le = count_upto-le test m n in absurd (omega (arith, le, rw e at z))
  | inr e ↦ elim (Bool-cases (j == n)) [
    | inl here ↦ rw ((==_iff j n).0 here) e
    | inr before ↦ count_upto-zero test m n j (omega arith) (rw e at z) (ground arith)
  ]
]
