-- ===== src/Stop/Devices.antt =====
-- The deletion of the port devices of a switch (pkg/vswitch/stop.go) leaves none.
use mathlib.Core.Path.{subst}
use connector.Base.{
  ℕ, zero, suc, ◌+◌, ◌≤◌, ◌<◌, ◌≡◌, refl, ◌≢◌, ◌⊎◌, inl, inr, false, ◌&&◌, List, [], ◌∷◌, Result,
  ok, err, arith, Bool-cases, ◌==◌, ==_iff, ap, ◌∙◌,
}
use connector.Slots.{MmappedSlots, inner_ip_reserved, get_inner_ip, update_slot_fields}
use connector.Stop.{
  StopError, StopKernel, PortIface, collect_ports, collect_port_interfaces, delete_port_interfaces,
  validate_from, count_ports_with_devices, no_device, is_failed,
}

-- The slot `j` is in the list.
abbrev pub Lists : ℕ → List PortIface → Type 0
Lists j [] = ⊥
Lists j (p ∷ ps) = (j ≡ p.slot_id) ⊎ Lists j ps

-- The slots after a deletion: the owners as before, and no device where one was deleted.
pub record IsStripped (ps : List PortIface) (m n : MmappedSlots) : Type 0 where
  pub bound : n.num_slots ≡ m.num_slots
  pub owners : (j : ℕ) → (n.items j).inner_ip ≡ (m.items j).inner_ip
  pub bare : (j : ℕ) → (m.items j).ifindex ≡ 0 → (n.items j).ifindex ≡ 0
  pub stripped : (j : ℕ) → j < m.num_slots → Lists j ps → (n.items j).ifindex ≡ 0

strip-owner :
    (m : MmappedSlots) (i j : ℕ)
    → (((update_slot_fields m i no_device).items j).inner_ip ≡ (m.items j).inner_ip)
      × ((update_slot_fields m i no_device).num_slots ≡ m.num_slots)
unfolding update_slot_fields
strip-owner m i j = ground arith

strip-bare :
    (m : MmappedSlots) (i j : ℕ)
    → ((m.items j).ifindex ≡ 0) ⊎ (j ≡ i) × (j < m.num_slots)
    → ((update_slot_fields m i no_device).items j).ifindex ≡ 0
unfolding update_slot_fields
strip-bare m i j h = ground arith

delete_step :
    (k : StopKernel) (p : PortIface) (ps : List PortIface) (m m' : MmappedSlots)
    → delete_port_interfaces k (p ∷ ps) m ≡ (ok tt, m')
    → delete_port_interfaces k ps (update_slot_fields m p.slot_id no_device) ≡ (ok tt, m')
unfolding delete_port_interfaces
delete_step k p ps m m' h = elim (Bool-cases (is_failed (k.del_link p.ifindex))) [
  | inl e ↦ absurd (clash (rw e at h))
  | inr e ↦ elim (Bool-cases (k.has_index && is_failed (k.del_index p.ifindex))) [
    | inl e' ↦ absurd (clash (rw (e, e') at h))
    | inr e' ↦ rw (e, e') at h
  ]
]
  where
    clash :
        {x : StopError} {v : MmappedSlots}
        → ◌≡◌ {A = Result StopError (Unit {0}) × MmappedSlots} (err x, v) (ok tt, m')
        → ⊥
    clash e = cc

pub deleted-IsStripped :
    (k : StopKernel) (ps : List PortIface) (m m' : MmappedSlots)
    → delete_port_interfaces k ps m ≡ (ok tt, m')
    → IsStripped ps m m'
unfolding delete_port_interfaces
deleted-IsStripped k [] m m' h =
    let e : m ≡ m' = ap (λ r. r.1) h in
    subst (IsStripped [] m) e
      (record { bound = refl; owners = λ j. refl; bare = λ j z. z; stripped = λ j r l. absurd l })
deleted-IsStripped k (p ∷ ps) m m' h =
    let m1 = update_slot_fields m p.slot_id no_device in
    let rest = deleted-IsStripped k ps m1 m' (delete_step k p ps m m' h) in
    record {
      bound = rest.bound ∙ (strip-owner m p.slot_id 0).1;
      owners = λ j. rest.owners j ∙ (strip-owner m p.slot_id j).0;
      bare = λ j z. rest.bare j (strip-bare m p.slot_id j (inl z));
      stripped = λ j r l. elim l [
        | inl e ↦ rest.bare j (strip-bare m p.slot_id j (inr (e, r)))
        | inr in_rest ↦ rest.stripped j (rw (strip-owner m p.slot_id 0).1 r) in_rest
      ];
    }

pub collect_ports-Lists :
    (m : MmappedSlots) (i rounds j : ℕ)
    → i ≤ j
    → j < i + rounds
    → (m.items j).ifindex ≢ 0
    → Lists j (collect_ports m i rounds)
unfolding collect_ports
collect_ports-Lists m i zero j p q ne = absurd (omega arith)
collect_ports-Lists m i (suc rounds) j p q ne = elim (Bool-cases (j == i)) [
  | inl here ↦
      let e = (==_iff j i).0 here in
      let device : ((m.items i).ifindex == 0) ≡ false = ground (arith, ne) in rw device (inl e)
  | inr later ↦
      let rest = collect_ports-Lists m (i + 1) rounds j (ground arith) (omega arith) ne in
      elim (Bool-cases ((m.items i).ifindex == 0)) [ inl z ↦ rw z rest | inr nz ↦ rw nz (inr rest) ]
]

-- Reserved and bare, from slot to slot.
abbrev pub AllReleased : MmappedSlots → ℕ → ℕ → Type 0
AllReleased m i k =
    (j : ℕ) → i ≤ j → j < k → ((m.items j).inner_ip ≡ inner_ip_reserved) × ((m.items j).ifindex ≡ 0)

pub validate_from-ok :
    (m : MmappedSlots) (i rounds : ℕ)
    → i + rounds ≤ m.num_slots
    → AllReleased m i (i + rounds)
    → validate_from m i rounds ≡ ok tt
unfolding validate_from get_inner_ip
validate_from-ok m i zero b all = refl
validate_from-ok m i (suc rounds) b all =
    let (owner, bare) = all i (omega arith) (omega arith) in
    let rest =
      validate_from-ok m (i + 1) rounds (omega arith)
        (λ j p q. all j (omega arith) (omega arith)) in
    ground (arith, owner, bare, rest)

pub no_devices :
    (m : MmappedSlots) (n : ℕ)
    → ((j : ℕ) → j < n → (m.items j).ifindex ≡ 0)
    → count_ports_with_devices m n ≡ 0
unfolding count_ports_with_devices
no_devices m zero all = refl
no_devices m (suc n) all = rw (all n (omega arith)) (no_devices m n (λ j q. all j (omega arith)))

pub deleted-AllReleased :
    (k : StopKernel) (n : ℕ) (m m' : MmappedSlots)
    → n ≤ m.num_slots
    → ((j : ℕ) → j < n → (m.items j).inner_ip ≡ inner_ip_reserved)
    → delete_port_interfaces k (collect_port_interfaces m n) m ≡ (ok tt, m')
    → AllReleased m' 0 n
unfolding collect_port_interfaces
deleted-AllReleased k n m m' b reserved h =
    let s = deleted-IsStripped k (collect_ports m 0 n) m m' h in
    λ j p q. (
      s.owners j ∙ reserved j q,
      elim (Bool-cases ((m.items j).ifindex == 0)) [
        | inl z ↦ s.bare j ((==_iff _ _).0 z)
        | inr nz ↦
            s.stripped j (omega arith)
              (collect_ports-Lists m 0 n j p (omega arith) (λ z. ground arith))
      ],
    )
