-- ===== src/Stop/Passes.antt =====
-- The passes that reserve slots (pkg/vswitch/stop.go) end, and what they leave when nobody interferes.
use mathlib.Core.Path.{subst}
use connector.Base.{
  ℕ, zero, suc, ◌+◌, ◌≤◌, ◌<◌, ◌≡◌, refl, ◌≢◌, inl, inr, Bool, true, false, List, [], ok, arith,
  Bool-cases, ◌==◌, if◌then◌else◌, length, ap, sym, ◌∙◌, ==_iff,
}
use connector.Slots.{SlotItem, MmappedSlots, inner_ip_reserved, get_inner_ip}
use connector.Slots.Cas.{try_reserve}
use connector.Stop.{
  Pass, done, conflict, reserve_pass, is_free, not_reserved, reserve_free_from, reserve_free_slots,
  reserve_all_from, reserve_all_slots, after_free, after_all,
}

-- A conflict has used up an interference.
abbrev Uses : List (MmappedSlots → MmappedSlots) → Pass → Type 0
Uses fs (done m fs') = Unit {0}
Uses fs (conflict m fs') = length fs' < length fs

-- With nobody between the read and the CAS, the CAS of a slot in range wins.
try_reserve_read :
    (m : MmappedSlots) (i : ℕ)
    → i < m.num_slots
    → get_inner_ip m i ≢ inner_ip_reserved
    → (try_reserve m i (get_inner_ip m i)).0 ≡ true
unfolding try_reserve get_inner_ip
try_reserve_read m i r ne = ground arith

try_reserve_bound : (m : MmappedSlots) (i ip : ℕ) → (try_reserve m i ip).1.num_slots ≡ m.num_slots
unfolding try_reserve
try_reserve_bound m i ip = ground arith

-- What a quiet pass makes of a slot.
abbrev pub marked : (ℕ → Bool) → SlotItem → SlotItem
marked wanted item =
    if wanted item.inner_ip then record item { inner_ip = inner_ip_reserved } else item

-- The slots of [i, k) are marked, and the others as they were.
pub record IsMarked (wanted : ℕ → Bool) (i k : ℕ) (m n : MmappedSlots) : Type 0 where
  pub bound : n.num_slots ≡ m.num_slots
  pub within : (j : ℕ) → i ≤ j → j < k → n.items j ≡ marked wanted (m.items j)
  pub below : (j : ℕ) → j < i → n.items j ≡ m.items j

read_item : (m : MmappedSlots) (i : ℕ) → i < m.num_slots → get_inner_ip m i ≡ (m.items i).inner_ip
unfolding get_inner_ip
read_item m i r = ground arith

reserve_at :
    (m : MmappedSlots) (i : ℕ)
    → i < m.num_slots
    → (m.items i).inner_ip ≢ inner_ip_reserved
    → ((try_reserve m i (m.items i).inner_ip).0 ≡ true)
      × ((try_reserve m i (m.items i).inner_ip).1.items i
          ≡ record (m.items i) { inner_ip = inner_ip_reserved })
unfolding try_reserve
reserve_at m i r ne = ground arith

reserve_other : (m : MmappedSlots) (i ip j : ℕ) → j ≢ i → (try_reserve m i ip).1.items j ≡ m.items j
unfolding try_reserve
reserve_other m i ip j ne = ground arith

-- A range begins with its first index.
range_step :
    (P : ℕ → Type 0) (i k : ℕ)
    → P i
    → ((j : ℕ) → i + 1 ≤ j → j < k → P j)
    → (j : ℕ) → i ≤ j
    → j < k
    → P j
range_step P i k first rest j p q = elim (Bool-cases (j == i)) [
  | inl e ↦ subst P (sym ((==_iff j i).0 e)) first
  | inr e ↦ rest j (ground arith) q
]

marked_taken :
    (wanted : ℕ → Bool) (item : SlotItem)
    → wanted item.inner_ip ≡ true
    → marked wanted item ≡ record item { inner_ip = inner_ip_reserved }
marked_taken wanted item e = rw e refl

marked_skipped :
    (wanted : ℕ → Bool) (item : SlotItem) → wanted item.inner_ip ≡ false → marked wanted item ≡ item
marked_skipped wanted item e = rw e refl

module _ (wanted : ℕ → Bool) (leaves : wanted inner_ip_reserved ≡ false) where
  wanted_ne : (ip : ℕ) → wanted ip ≡ true → ip ≢ inner_ip_reserved
  wanted_ne ip w e = cc

  pub reserve_pass-IsMarked :
      (i rounds : ℕ) (m : MmappedSlots)
      → i + rounds ≤ m.num_slots
      → (n : MmappedSlots) × (reserve_pass wanted i rounds [] m ≡ done n [])
        × IsMarked wanted i (i + rounds) m n
  unfolding reserve_pass
  reserve_pass-IsMarked i zero m b = (
    m,
    refl,
    record { bound = refl; within = λ j p q. absurd (omega arith); below = λ j p. refl },
  )
  reserve_pass-IsMarked i (suc rounds) m b = elim (Bool-cases (wanted (m.items i).inner_ip)) [
    | inr skip ↦
        let (n, runs, mark) = reserve_pass-IsMarked (i + 1) rounds m (omega arith) in
        (
          n,
          rw (read_item m i (omega arith), skip) runs,
          record {
            bound = mark.bound;
            within =
                range_step (λ j. n.items j ≡ marked wanted (m.items j)) i (i + suc rounds)
                  (mark.below i (omega arith) ∙ sym (marked_skipped wanted (m.items i) skip))
                  (λ j p q. mark.within j p (omega arith));
            below = λ j p. mark.below j (omega arith);
          },
        )
    | inl take ↦
        let ip = (m.items i).inner_ip in
        let m1 = (try_reserve m i ip).1 in
        let (won, item) = reserve_at m i (omega arith) (wanted_ne ip take) in
        let (n, runs, mark) =
          reserve_pass-IsMarked (i + 1) rounds m1 (rw (try_reserve_bound m i ip) (omega arith)) in
        (
          n,
          rw (read_item m i (omega arith), take, won) runs,
          record {
            bound = mark.bound ∙ try_reserve_bound m i ip;
            within =
                range_step (λ j. n.items j ≡ marked wanted (m.items j)) i (i + suc rounds)
                  (mark.below i (omega arith) ∙ item ∙ sym (marked_taken wanted (m.items i) take))
                  (λ j p q.
                    mark.within j p (omega arith)
                    ∙ ap (marked wanted) (reserve_other m i ip j (λ z. omega arith)));
            below = λ j p. mark.below j (omega arith) ∙ reserve_other m i ip j (λ z. omega arith);
          },
        )
  ]

-- The two passes of a stop that nobody disturbs.
pub reserve_free_slots-IsMarked :
    (n : ℕ) (m : MmappedSlots)
    → n ≤ m.num_slots
    → (m' : MmappedSlots) × (reserve_free_slots n [] m ≡ (ok tt, m')) × IsMarked is_free 0 n m m'
unfolding reserve_free_slots reserve_free_from
reserve_free_slots-IsMarked n m b =
    let (m', runs, mark) = reserve_pass-IsMarked is_free refl 0 n m (omega arith) in
    (
      m',
      ap (after_free n (reserve_free_from 0 n)) runs,
      record {
        bound = mark.bound;
        within = λ j p q. mark.within j p (omega arith);
        below = mark.below;
      },
    )

pub reserve_all_slots-IsMarked :
    (n : ℕ) (m : MmappedSlots)
    → n ≤ m.num_slots
    → (m' : MmappedSlots) × (reserve_all_slots n [] m ≡ (ok tt, m'))
      × IsMarked not_reserved 0 n m m'
unfolding reserve_all_slots reserve_all_from
reserve_all_slots-IsMarked n m b =
    let (m', runs, mark) = reserve_pass-IsMarked not_reserved refl 0 n m (omega arith) in
    (
      m',
      ap (after_all (reserve_all_from 0 n)) runs,
      record {
        bound = mark.bound;
        within = λ j p q. mark.within j p (omega arith);
        below = mark.below;
      },
    )
