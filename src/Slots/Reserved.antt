-- ===== src/Slots/Reserved.antt =====
-- `initBPFSlotsReserved` of pkg/vswitch/lifecycle.go: a new switch claims every slot as Reserved.
use connector.Base.{
  ℕ, zero, suc, ◌+◌, ◌≤◌, ◌<◌, ◌≡◌, refl, ◌≢◌, true, false, arith, Result, ok, err, if◌then◌else◌,
  Bool-cases, inl, inr, ◌∙◌,
}
use mathlib.Core.Path.{subst}
use native.Mathlib.Decide.{dec_lt}
use connector.Slots.{
  MmappedSlots, SlotItem, inner_ip_free, inner_ip_reserved, init_slot_reserved, zero_mac,
}

pub data InitError : Type 0 where
  not_free : ℕ → InitError

init_from : MmappedSlots → ℕ → ℕ → Result InitError (Unit {0}) × MmappedSlots
init_from m i zero = (ok tt, m)
init_from m i (suc rounds) =
    let (won, m') = init_slot_reserved m i in
    let rest = init_from m' (i + 1) rounds in if won then rest else (err (not_free i), m')

unfoldable pub init_bpf_slots_reserved :
    MmappedSlots → ℕ → Result InitError (Unit {0}) × MmappedSlots
unfolding init_from
init_bpf_slots_reserved m num_ports = init_from m 0 num_ports

-- What `InitSlotReserved` leaves: a Reserved slot with no device and no transit state.
pub record IsBlank (s : SlotItem) : Type 0 where
  pub reserved : s.inner_ip ≡ inner_ip_reserved
  pub no_device : s.ifindex ≡ 0
  pub no_gateway : s.transit_gateway_ip ≡ 0
  pub no_vni : s.transit_geneve_vni ≡ 0
  pub no_options : s.geneve_opts_len ≡ 0
  pub no_mac : s.transit_mac ≡ zero_mac

init_slot-IsBlank :
    (m : MmappedSlots) (i : ℕ)
    → i < m.num_slots
    → (m.items i).inner_ip ≡ inner_ip_free
    → ((init_slot_reserved m i).0 ≡ true) × IsBlank ((init_slot_reserved m i).1.items i)
unfolding init_slot_reserved
init_slot-IsBlank m i h free = ground arith

init_slot_frame :
    (m : MmappedSlots) (i j : ℕ) → j ≢ i → (init_slot_reserved m i).1.items j ≡ m.items j
unfolding init_slot_reserved
init_slot_frame m i j ne = ground arith

init_slot_bound : (m : MmappedSlots) (i : ℕ) → (init_slot_reserved m i).1.num_slots ≡ m.num_slots
unfolding init_slot_reserved
init_slot_bound m i = ground arith

init_slot_loses :
    (m : MmappedSlots) (i : ℕ)
    → (m.items i).inner_ip ≢ inner_ip_free
    → init_slot_reserved m i ≡ (false, m)
unfolding init_slot_reserved
init_slot_loses m i h = ground arith

-- The slots of [i, k) are Free.
abbrev pub AllFree : MmappedSlots → ℕ → ℕ → Type 0
AllFree m i k = (j : ℕ) → i ≤ j → j < k → (m.items j).inner_ip ≡ inner_ip_free

init_from_frame :
    (m : MmappedSlots) (i rounds j : ℕ) → j < i → (init_from m i rounds).1.items j ≡ m.items j
unfolding init_from
init_from_frame m i zero j h = refl
init_from_frame m i (suc rounds) j h = elim (Bool-cases (init_slot_reserved m i).0) [
  | inl won ↦ rw won (
      init_from_frame (init_slot_reserved m i).1 (i + 1) rounds j (omega arith)
      ∙ init_slot_frame m i j (λ e. omega arith))
  | inr lost ↦ rw lost (init_slot_frame m i j (λ e. omega arith))
]

init_from-AllFree :
    (m : MmappedSlots) (i rounds : ℕ)
    → i + rounds ≤ m.num_slots
    → AllFree m i (i + rounds)
    → ((init_from m i rounds).0 ≡ ok tt)
      × ((j : ℕ) → i ≤ j → j < i + rounds → IsBlank ((init_from m i rounds).1.items j))
unfolding init_from
init_from-AllFree m i zero b free = (refl, λ j p q. absurd (omega arith))
init_from-AllFree m i (suc rounds) b free =
    let (won, blank) = init_slot-IsBlank m i (omega arith) (free i (omega arith) (omega arith)) in
    let m' = (init_slot_reserved m i).1 in
    let (done, rest) =
      init_from-AllFree m' (i + 1) rounds (rw (init_slot_bound m i) (omega arith)) (λ j p q.
        rw (init_slot_frame m i j (λ e. omega arith)) (free j (omega arith) (omega arith))) in
    rw won (
      done,
      λ j p q. elim (dec_lt i j) [
        | yes lt ↦ rest j (omega arith) (omega arith)
        | no ge ↦
            let e : i ≡ j = omega arith in
            subst (λ t. IsBlank ((init_from m' (i + 1) rounds).1.items t)) e
              (rw (init_from_frame m' (i + 1) rounds i (omega arith)) blank)
      ],
    )

-- On the fresh map, where every slot is Free, it succeeds and leaves every slot of the switch
-- Reserved, without device and without transit state.
pub init_bpf_slots_reserved-IsBlank :
    (m : MmappedSlots) (n : ℕ)
    → n ≤ m.num_slots
    → AllFree m 0 n
    → ((init_bpf_slots_reserved m n).0 ≡ ok tt)
      × ((j : ℕ) → j < n → IsBlank ((init_bpf_slots_reserved m n).1.items j))
unfolding init_bpf_slots_reserved
init_bpf_slots_reserved-IsBlank m n b free =
    let (done, blank) = init_from-AllFree m 0 n (omega arith) (λ j p q. free j p (omega arith)) in
    (done, λ j q. blank j (omega arith) (omega arith))
