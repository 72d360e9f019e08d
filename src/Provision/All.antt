-- ===== src/Provision/All.antt =====
-- ProvisionPorts over all slots (pkg/vswitch/provision.go).
use connector.Base.{
  ℕ, zero, suc, ◌+◌, ◌≤◌, ◌<◌, ◌≡◌, refl, ◌⊎◌, inl, inr, true, [], Result, ok, err, ◌==◌, Bytes,
  u32, arith, Bool-cases, ap, ◌∙◌, sym,
}
use native.Mathlib.Decide.{ℕ_discrete}
use connector.Slots.{MmappedSlots, SlotItem, inner_ip_free, inner_ip_reserved, get_inner_ip}
use connector.Provision.{
  ProvisionError, Provisioned, ProvisionAnswers, ProvisionOptions, SlotInfo, provision_slot,
}
use connector.Provision.Loop.{
  Looped, counted, is_chosen, is_reached, provision_from, provision_ports,
}
use connector.Provision.Slot.{IsInstalled, Settled, provision_slot-cases}

-- What a run may do to a slot: nothing, or a Reserved slot gets a device of the wanted mode and is
-- Free and down, or still Reserved.
abbrev pub Changed : ℕ → SlotItem → SlotItem → Type 0
Changed mode s t =
    (t ≡ s)
    ⊎ ((s.inner_ip ≡ inner_ip_reserved)
        × (t.mode ≡ mode)
        × (((t.inner_ip ≡ inner_ip_free) × (t.flags ≡ 0)) ⊎ (t.inner_ip ≡ inner_ip_reserved)))

Settled-cases :
    (r : Result ProvisionError (Unit {0})) (s : SlotItem)
    → Settled r s
    → ((s.inner_ip ≡ inner_ip_free) × (s.flags ≡ 0)) ⊎ (s.inner_ip ≡ inner_ip_reserved)
Settled-cases (ok _) s h = inl h
Settled-cases (err _) s h = inr h

-- No process but this one changes the slots meanwhile.
abbrev pub IsAlone : ProvisionAnswers → Type 0
IsAlone k = (j : ℕ) → (k.port j).races ≡ []

IsInstalled-Changed :
    (mode i n j : ℕ) (p : Provisioned) (r : Result ProvisionError (Unit {0}) × Provisioned)
    → (p.slots.items i).inner_ip ≡ inner_ip_reserved
    → IsInstalled mode i n p r
    → Changed mode (p.slots.items j) (r.1.slots.items j)
IsInstalled-Changed mode i n j p r h v = elim (ℕ_discrete j i) [
  | yes e ↦ rw e (inr (h, v.has_mode, Settled-cases r.0 _ v.settled))
  | no ne ↦ inl (v.others.others j ne)
]

-- What a turn may be, as `provision_slot-cases` tells it.
abbrev pub Turn : ℕ → ℕ → Provisioned → Result ProvisionError (Unit {0}) × Provisioned → Type 0
Turn mode i p r = ((e : ProvisionError) × (r ≡ (err e, p))) ⊎ ((n : ℕ) × IsInstalled mode i n p r)

-- A slot that its turn freed stays as it is; another one is as it was.
then_Changed :
    (mode i n j : ℕ) (p q : Provisioned) (u : SlotItem)
    → (p.slots.items i).inner_ip ≡ inner_ip_reserved
    → IsInstalled mode i n p (ok tt, q)
    → Changed mode (q.slots.items j) u
    → Changed mode (p.slots.items j) u
then_Changed mode i n j p q u h v (inl e) = rw e (IsInstalled-Changed mode i n j p (ok tt, q) h v)
then_Changed mode i n j p q u h v (inr c) = elim (ℕ_discrete j i) [
  | yes e ↦ absurd (ground (arith, e, c.0, v.settled.0))
  | no ne ↦ inr (sym (ap (λ x. x.inner_ip) (v.others.others j ne)) ∙ c.0, c.1, c.2)
]

counted-Changed :
    (mode i j done : ℕ) (p : Provisioned) (r : Result ProvisionError (Unit {0}) × Provisioned)
    (next : ℕ → Provisioned → Looped)
    → (p.slots.items i).inner_ip ≡ inner_ip_reserved
    → Turn mode i p r
    → ((q : Provisioned)
        → q.slots.num_slots ≡ p.slots.num_slots
        → Changed mode (q.slots.items j) ((next (done + 1) q).1.slots.items j))
    → Changed mode (p.slots.items j) ((counted r done next).1.slots.items j)
counted-Changed mode i j done p (err e, q) next h (inl (f, eq)) goes_on =
    inl (ap (λ x. x.1.slots.items j) eq)
counted-Changed mode i j done p (err e, q) next h (inr (n, v)) goes_on =
    IsInstalled-Changed mode i n j p (err e, q) h v
counted-Changed mode i j done p (ok _, q) next h (inl (f, eq)) goes_on = absurd (ground (arith, eq))
counted-Changed mode i j done p (ok _, q) next h (inr (n, v)) goes_on =
    then_Changed mode i n j p q _ h v (goes_on q v.others.bound)

module _ (k : ProvisionAnswers) (port_netns : Bytes) (info : SlotInfo) (o : ProvisionOptions)
    (alone : IsAlone k) where
  pub turn :
      (i : ℕ) (p : Provisioned)
      → i < p.slots.num_slots
      → (p.slots.items i).inner_ip ≡ inner_ip_reserved
      → Turn o.mode i p (provision_slot k port_netns info o.mode i p)
  turn i p h r = elim (provision_slot-cases k port_netns info o.mode i p (alone i) h r) [
    | inl nothing ↦ inl nothing
    | inr (n, _, _, v) ↦ inr (u32 n, v)
  ]

  pub chosen_Reserved :
      (i : ℕ) (m : MmappedSlots)
      → is_chosen o i m ≡ true
      → i < m.num_slots
      → (m.items i).inner_ip ≡ inner_ip_reserved
  unfolding get_inner_ip
  chosen_Reserved i m c h = elim (Bool-cases (get_inner_ip m i == inner_ip_reserved)) [
    | inl e ↦ ground (arith, e, h)
    | inr e ↦ absurd (ground (arith, c, e))
  ]

  pub rest_Changed :
      (left i done j : ℕ) (p : Provisioned)
      → i + left ≤ p.slots.num_slots
      → Changed o.mode
          (p.slots.items j)
          ((provision_from k port_netns info o left i done p).1.slots.items j)
  unfolding provision_from
  rest_Changed zero i done j p h = inl refl
  rest_Changed (suc left) i done j p h = elim (Bool-cases (is_chosen o i p.slots)) [
    | inr idle ↦ rw (idle, provision_from) (rest_Changed left (i + 1) done j p (omega (arith, h)))
    | inl chosen ↦
        let r = chosen_Reserved i p.slots chosen (omega (arith, h)) in
        rw (chosen, provision_from)
          (counted-Changed o.mode i j done p (provision_slot k port_netns info o.mode i p) _ r
            (turn i p (omega (arith, h)) r)
            (λ q same. elim (Bool-cases (is_reached o (done + 1))) [
              | inl ends ↦ rw ends (inl refl)
              | inr goes ↦
                  rw goes (rest_Changed left (i + 1) (done + 1) j q (omega (arith, h, same)))
            ]))
  ]

-- While no other process changes the slots, every slot is as it was behind `ProvisionPorts`, whether
-- it succeeds or not, or it was Reserved, has the wanted mode, and is either Free with all its flags
-- cleared or still Reserved: a port that is Free or in use is never touched, and none becomes Allocated.
pub provision_ports-Changed :
    (k : ProvisionAnswers) (port_netns : Bytes) (info : SlotInfo) (o : ProvisionOptions)
    (p : Provisioned)
    → IsAlone k
    → (j : ℕ)
    → Changed o.mode
        (p.slots.items j)
        ((provision_ports k port_netns info o p.slots.num_slots p).1.slots.items j)
unfolding provision_ports
provision_ports-Changed k port_netns info o p alone j =
    rest_Changed k port_netns info o alone p.slots.num_slots 0 0 j p (omega arith)
