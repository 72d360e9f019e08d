-- ===== src/Status/Gather.antt =====
-- Which devices the checks of pkg/vswitch/status.go look at.
use connector.Base.{
  ℕ, zero, suc, ◌+◌, ◌-◌, ◌≤◌, ◌<◌, ◌≡◌, ◌≢◌, inl, inr, true, List, [], ◌∷◌, ◌++◌, ◌==◌, ==_iff,
  if◌then◌else◌, ltb, arith, All, Bool-cases, ◌↔◌,
}
use native.Mathlib.Decide.{ℕ_discrete}
use connector.Slots.{MmappedSlots, SlotItem, inner_ip_reserved, get_inner_ip}
use connector.Config.{max_mgmt_cidr_per_slot}
use connector.Status.Walk.{
  PortCheck, Checks, has_member, add_device, ext_devices, mgmt_devices, check_slot, checks_from,
  build_ports_to_check,
}

-- A slot that the checks look at.
abbrev pub IsChecked : ℕ → MmappedSlots → ℕ → Type 0
IsChecked n_ports m j = (j < n_ports) × (get_inner_ip m j ≢ inner_ip_reserved)

-- What holds of the checks behind the loop, when `R` is what one slot adds to it.
module _ (Q : Checks → Type 0) (R : SlotItem → Type 0)
    (adds : (i : ℕ) (s : SlotItem) (c : Checks) → (Q (check_slot i s c)) ↔ (Q c × R s))
    (m : MmappedSlots) where
  abbrev AllFrom : ℕ → ℕ → Type 0
  AllFrom left i =
      (j : ℕ) → i ≤ j → j < i + left → get_inner_ip m j ≢ inner_ip_reserved → R (m.items j)

  next_from : (left i : ℕ) → AllFrom (suc left) i → AllFrom left (i + 1)
  next_from left i h j a b n = h j (omega (arith, a)) (omega (arith, b)) n

  here_from :
      (left i : ℕ) → AllFrom (suc left) i → get_inner_ip m i ≢ inner_ip_reserved → R (m.items i)
  here_from left i h = h i (omega arith) (omega arith)

  suc_from :
      (left i : ℕ)
      → (get_inner_ip m i ≢ inner_ip_reserved → R (m.items i))
      → AllFrom left (i + 1)
      → AllFrom (suc left) i
  suc_from left i here rest j a b n = elim (ℕ_discrete j i) [
    | yes same ↦ rw same (here (rw same at n))
    | no ne ↦ rest j (omega (arith, a, ne)) (omega (arith, b)) n
  ]

  pub checks_from_iff :
      (left i : ℕ) (c : Checks) → (Q (checks_from m left i c)) ↔ (Q c × AllFrom left i)
  unfolding checks_from
  checks_from_iff zero i c = ((λ q. (q, λ j a b. absurd (omega (arith, a, b)))), λ h. h.0)
  checks_from_iff (suc left) i c = elim (Bool-cases (get_inner_ip m i == inner_ip_reserved)) [
    | inl reserved ↦
        let e = (==_iff (get_inner_ip m i) inner_ip_reserved).0 reserved in
        let rest = checks_from_iff left (i + 1) c in
        rw reserved (
          (λ q. ((rest.0 q).0, suc_from left i (λ n. absurd (n e)) (rest.0 q).1)),
          λ h. rest.1 (h.0, next_from left i h.1),
        )
    | inr held ↦
        let ne : get_inner_ip m i ≢ inner_ip_reserved = λ e. ground (arith, held, e) in
        let rest = checks_from_iff left (i + 1) (check_slot i (m.items i) c) in
        let here = adds i (m.items i) c in
        rw held (
          (λ q. (
            (here.0 (rest.0 q).0).0,
            suc_from left i (λ _. (here.0 (rest.0 q).0).1) (rest.0 q).1,
          )),
          λ h. rest.1 (here.1 (h.0, here_from left i h.1 ne), next_from left i h.1),
        )
  ]

has_member-All : (P : ℕ → Type 0) (n : ℕ) (set : List ℕ) → has_member n set ≡ true → All P set → P n
has_member-All P n [] m a = absurd (ground (arith, m))
has_member-All P n (x ∷ xs) m a = elim (Bool-cases (n == x)) [
  | inl here ↦ rw ((==_iff n x).0 here) a.0
  | inr not_here ↦ has_member-All P n xs (ground (arith, m, not_here)) a.1
]

-- All members of a set that a device is put into.
add_device_iff :
    (P : ℕ → Type 0) (n : ℕ) (set : List ℕ)
    → (All P (add_device n set)) ↔ (All P set × (n ≢ 0 → P n))
add_device_iff P n set = elim (Bool-cases (n == 0)) [
  | inl z ↦ rw z ((λ a. (a, λ ne. absurd (ne ((==_iff n 0).0 z)))), λ h. h.0)
  | inr nz ↦ elim (Bool-cases (has_member n set)) [
    | inl m ↦ rw (nz, m) ((λ a. (a, λ ne. has_member-All P n set m a)), λ h. h.0)
    | inr new ↦ rw (nz, new) ((λ a. (a.1, λ ne. a.0)), λ h. (h.1 (λ e. ground (arith, nz, e)), h.0))
  ]
]

ext_devices_iff :
    (P : ℕ → Type 0) (s : SlotItem) (left j : ℕ) (set : List ℕ)
    → (All P (ext_devices left j s set)) ↔ (
        All P set
        × ((q : ℕ)
            → j ≤ q
            → q < j + left
            → q < s.mgmt_cidr_count
            → (s.mgmt_cidrs q).ifindex ≢ 0
            → P (s.mgmt_cidrs q).ifindex))
unfolding ext_devices
ext_devices_iff P s zero j set = ((λ a. (a, λ q l u. absurd (omega (arith, l, u)))), λ h. h.0)
ext_devices_iff P s (suc left) j set = elim (Bool-cases (ltb j s.mgmt_cidr_count)) [
  | inr ends ↦ rw ends ((λ a. (a, λ q l u b. absurd (ground (arith, ends, l, b)))), λ h. h.0)
  | inl goes ↦
      let n = (s.mgmt_cidrs j).ifindex in
      let rest = ext_devices_iff P s left (j + 1) (add_device n set) in
      let here = add_device_iff P n set in
      rw goes (
        (λ a. (
          (here.0 (rest.0 a).0).0,
          λ q l u b nz. elim (ℕ_discrete q j) [
            | yes e ↦ rw e ((here.0 (rest.0 a).0).1 (rw e at nz))
            | no ne ↦ (rest.0 a).1 q (omega (arith, l, ne)) (omega (arith, u)) b nz
          ],
        )),
        λ h. rest.1 (
          here.1 (h.0, h.1 j (omega arith) (omega arith) (ground (arith, goes))),
          λ q l u. h.1 q (omega (arith, l)) (omega (arith, u)),
        ),
      )
]

-- What is asked of the management devices of a slot: of each network that counts, at most three.
abbrev pub AllMgmt : (ℕ → Type 0) → SlotItem → Type 0
AllMgmt P s =
    (q : ℕ)
    → q < max_mgmt_cidr_per_slot
    → q < s.mgmt_cidr_count
    → (s.mgmt_cidrs q).ifindex ≢ 0
    → P (s.mgmt_cidrs q).ifindex

first_device : SlotItem → List ℕ → List ℕ
first_device s set =
    if ltb 0 s.mgmt_cidr_count then add_device (s.mgmt_cidrs 0).ifindex set else set

first_device_iff :
    (P : ℕ → Type 0) (s : SlotItem) (set : List ℕ)
    → (All P (first_device s set)) ↔ (
        All P set
        × (0 < s.mgmt_cidr_count → (s.mgmt_cidrs 0).ifindex ≢ 0 → P (s.mgmt_cidrs 0).ifindex))
unfolding first_device
first_device_iff P s set = elim (Bool-cases (ltb 0 s.mgmt_cidr_count)) [
  | inr no_cidr ↦ rw no_cidr ((λ a. (a, λ b nz. absurd (ground (arith, no_cidr, b)))), λ h. h.0)
  | inl some_cidr ↦
      let here = add_device_iff P (s.mgmt_cidrs 0).ifindex set in
      rw some_cidr (
        (λ a. ((here.0 a).0, λ b nz. (here.0 a).1 nz)),
        λ h. here.1 (h.0, h.1 (ground (arith, some_cidr))),
      )
]

mgmt_devices_iff :
    (P : ℕ → Type 0) (s : SlotItem) (set : List ℕ)
    → (All P (mgmt_devices s set)) ↔ (All P set × AllMgmt P s)
unfolding mgmt_devices first_device
mgmt_devices_iff P s set =
    let ext = ext_devices_iff P s (max_mgmt_cidr_per_slot - 1) 1 (first_device s set) in
    let first = first_device_iff P s set in
    (
      (λ a. (
        (first.0 (ext.0 a).0).0,
        λ q u b nz. elim (ℕ_discrete q 0) [
          | yes e ↦ rw e ((first.0 (ext.0 a).0).1 (rw e at b) (rw e at nz))
          | no ne ↦ (ext.0 a).1 q (omega (arith, ne)) (omega (arith, u)) b nz
        ],
      )),
      λ h. ext.1 (first.1 (h.0, h.1 0 (omega arith)), λ q l u. h.1 q (omega (arith, u))),
    )

All-append :
    (P : PortCheck → Type 0) (xs : List PortCheck) (y : PortCheck)
    → (All P (xs ++ y ∷ [])) ↔ (All P xs × P y)
All-append P [] y = ((λ a. (tt, a.0)), λ h. (h.1, tt))
All-append P (x ∷ xs) y =
    let rest = All-append P xs y in
    ((λ a. ((a.0, (rest.0 a.1).0), (rest.0 a.1).1)), λ h. (h.0.0, rest.1 (h.0.1, h.1)))

pub ports_iff :
    (P : ℕ → Type 0) (n_ports : ℕ) (m : MmappedSlots)
    → (All (λ pc. P pc.port_ifindex) (build_ports_to_check n_ports m).ports)
      ↔ ((j : ℕ) → IsChecked n_ports m j → P (m.items j).ifindex)
unfolding build_ports_to_check
ports_iff P n_ports m =
    let all =
      checks_from_iff (λ c. All (λ pc. P pc.port_ifindex) c.ports) (λ s. P s.ifindex)
        (λ i s c. All-append (λ pc. P pc.port_ifindex) c.ports _) m n_ports 0 _ in
    (
      (λ a j c. (all.0 a).1 j (omega arith) (omega (arith, c.0)) c.1),
      λ h. all.1 (tt, λ j a b n. h j (omega (arith, b), n)),
    )

pub mgmt_iff :
    (P : ℕ → Type 0) (n_ports : ℕ) (m : MmappedSlots)
    → (All P (build_ports_to_check n_ports m).mgmt)
      ↔ ((j : ℕ) → IsChecked n_ports m j → AllMgmt P (m.items j))
unfolding build_ports_to_check
mgmt_iff P n_ports m =
    let all =
      checks_from_iff (λ c. All P c.mgmt) (AllMgmt P) (λ i s c. mgmt_devices_iff P s c.mgmt) m
        n_ports 0 _ in
    (
      (λ a j c. (all.0 a).1 j (omega arith) (omega (arith, c.0)) c.1),
      λ h. all.1 (tt, λ j a b n. h j (omega (arith, b), n)),
    )

pub transit_iff :
    (P : ℕ → Type 0) (n_ports : ℕ) (m : MmappedSlots)
    → (All P (build_ports_to_check n_ports m).transit) ↔ (
        (j : ℕ)
        → IsChecked n_ports m j
        → (m.items j).transit_ifindex ≢ 0
        → P (m.items j).transit_ifindex)
unfolding build_ports_to_check
transit_iff P n_ports m =
    let all =
      checks_from_iff (λ c. All P c.transit) (λ s. s.transit_ifindex ≢ 0 → P s.transit_ifindex)
        (λ i s c. add_device_iff P s.transit_ifindex c.transit) m n_ports 0 _ in
    (
      (λ a j c. (all.0 a).1 j (omega arith) (omega (arith, c.0)) c.1),
      λ h. all.1 (tt, λ j a b n. h j (omega (arith, b), n)),
    )
