-- ===== src/Provision/Complete.antt =====
-- What a successful ProvisionPorts has covered (pkg/vswitch/provision.go).
use connector.Base.{
  ℕ, zero, suc, ◌+◌, ◌≤◌, ◌<◌, ◌≡◌, refl, ◌≢◌, inl, inr, true, false, Result, ok, err, ◌==◌,
  if◌then◌else◌, Bytes, arith, Bool-cases, ap, ◌∙◌, sym,
}
use native.Mathlib.Decide.{ℕ_discrete}
use connector.Slots.{MmappedSlots, SlotItem, inner_ip_reserved, get_inner_ip}
use connector.Slots.Laws.{SameBut}
use connector.Provision.{
  ProvisionError, Provisioned, ProvisionAnswers, ProvisionOptions, SlotInfo, provision_slot,
}
use connector.Provision.Loop.{Looped, counted, is_chosen, provision_from, provision_ports}
use connector.Provision.Slot.{IsInstalled}
use connector.Provision.All.{Changed, IsAlone, Turn, turn, chosen_Reserved, rest_Changed}

-- How many of the `left` slots from `i` are Reserved.
unfoldable pub reserved_count : ℕ → ℕ → MmappedSlots → ℕ
reserved_count zero i m = 0
reserved_count (suc left) i m =
    (if (m.items i).inner_ip == inner_ip_reserved then 1 else 0) + reserved_count left (i + 1) m

reserved_count-SameBut :
    (left i k : ℕ) (m n : MmappedSlots)
    → SameBut k m n
    → k < i
    → reserved_count left i n ≡ reserved_count left i m
unfolding reserved_count
reserved_count-SameBut zero i k m n s h = refl
reserved_count-SameBut (suc left) i k m n s h =
    rw
      (
        s.others i (omega (arith, h)),
        reserved_count-SameBut left (i + 1) k m n s (omega (arith, h)),
      )
      refl

-- A slot from `i` that the run left Reserved.
abbrev NoneReserved : ℕ → ℕ → MmappedSlots → Type 0
NoneReserved left i m = (j : ℕ) → i ≤ j → j < i + left → (m.items j).inner_ip ≢ inner_ip_reserved

counted_ok :
    (mode i done d : ℕ) (p : Provisioned) (r : Result ProvisionError (Unit {0}) × Provisioned)
    (next : ℕ → Provisioned → Looped)
    → Turn mode i p r
    → (counted r done next).0 ≡ ok d
    → (q : Provisioned) × (n : ℕ) × IsInstalled mode i n p (ok tt, q)
      × (counted r done next ≡ next (done + 1) q)
counted_ok mode i done d p (err e, q) next t h = absurd (ground (arith, h))
counted_ok mode i done d p (ok _, q) next (inl (f, eq)) h = absurd (ground (arith, eq))
counted_ok mode i done d p (ok _, q) next (inr (n, v)) h = (q, n, v, refl)

kept_settled :
    (mode : ℕ) (s t : SlotItem)
    → Changed mode s t
    → s.inner_ip ≢ inner_ip_reserved
    → t.inner_ip ≢ inner_ip_reserved
kept_settled mode s t (inl e) h = rw e h
kept_settled mode s t (inr c) h = absurd (h c.0)

NoneReserved-suc :
    (left i : ℕ) (m : MmappedSlots)
    → (m.items i).inner_ip ≢ inner_ip_reserved
    → NoneReserved left (i + 1) m
    → NoneReserved (suc left) i m
NoneReserved-suc left i m h rest j a b = elim (ℕ_discrete j i) [
  | yes e ↦ rw e h
  | no ne ↦ rest j (omega (arith, a, ne)) (omega (arith, b))
]

module _ (k : ProvisionAnswers) (port_netns : Bytes) (info : SlotInfo) (o : ProvisionOptions)
    (alone : IsAlone k) (every_port : o.port ≡ 0) (no_limit : o.count ≡ 0) where
  from_chosen :
      (left i done : ℕ) (p : Provisioned)
      → is_chosen o i p.slots ≡ true
      → provision_from k port_netns info o (suc left) i done p
        ≡ counted
            (provision_slot k port_netns info o.mode i p)
            done
            (λ d q. provision_from k port_netns info o left (i + 1) d q)
  unfolding provision_from
  from_chosen left i done p c = rw (c, provision_from, no_limit) refl

  from_idle :
      (left i done : ℕ) (p : Provisioned)
      → is_chosen o i p.slots ≡ false
      → provision_from k port_netns info o (suc left) i done p
        ≡ provision_from k port_netns info o left (i + 1) done p
  unfolding provision_from
  from_idle left i done p c = rw (c, provision_from) refl

  idle_settled :
      (i : ℕ) (m : MmappedSlots)
      → is_chosen o i m ≡ false
      → i < m.num_slots
      → (m.items i).inner_ip ≢ inner_ip_reserved
  unfolding get_inner_ip
  idle_settled i m c h r = absurd (ground (arith, c, h, r, every_port))

  -- `r` is the outcome of the `left` slots from `i`.
  abbrev IsComplete : ℕ → ℕ → ℕ → ℕ → Provisioned → Looped → Type 0
  IsComplete left i done d p r =
      NoneReserved left i r.1.slots × (d ≡ done + reserved_count left i p.slots)

  idle_step :
      (left i done d : ℕ) (p : Provisioned)
      → i + suc left ≤ p.slots.num_slots
      → is_chosen o i p.slots ≡ false
      → IsComplete left (i + 1) done d p (provision_from k port_netns info o left (i + 1) done p)
      → IsComplete (suc left) i done d p (provision_from k port_netns info o left (i + 1) done p)
  unfolding reserved_count
  idle_step left i done d p h c (none_left, counts) =
      let settled = idle_settled i p.slots c (omega (arith, h)) in
      let same = rest_Changed k port_netns info o alone left (i + 1) done i p (omega (arith, h)) in
      (
        NoneReserved-suc left i (provision_from k port_netns info o left (i + 1) done p).1.slots
            (kept_settled o.mode (p.slots.items i) _ same settled) none_left,
        ground (arith, settled, counts),
      )

  chosen_step :
      (left i done d n : ℕ) (p q : Provisioned)
      → i + suc left ≤ p.slots.num_slots
      → (p.slots.items i).inner_ip ≡ inner_ip_reserved
      → IsInstalled o.mode i n p (ok tt, q)
      → IsComplete left
          (i + 1)
          (done + 1)
          d
          q
          (provision_from k port_netns info o left (i + 1) (done + 1) q)
      → IsComplete
          (suc left)
          i
          done
          d
          p
          (provision_from k port_netns info o left (i + 1) (done + 1) q)
  unfolding reserved_count
  chosen_step left i done d n p q h reserved v (none_left, counts) =
      let same =
        rest_Changed k port_netns info o alone left (i + 1) (done + 1) i q
          (omega (arith, h, v.others.bound)) in
      let others = reserved_count-SameBut left (i + 1) i p.slots q.slots v.others (omega arith) in
      (
        NoneReserved-suc left i
            (provision_from k port_netns info o left (i + 1) (done + 1) q).1.slots
            (kept_settled o.mode (q.slots.items i) _ same (λ e. ground (arith, e, v.settled.0)))
            none_left,
        ground (arith, reserved, counts, others),
      )

  rest-IsComplete :
      (left i done d : ℕ) (p : Provisioned)
      → i + left ≤ p.slots.num_slots
      → (provision_from k port_netns info o left i done p).0 ≡ ok d
      → IsComplete left i done d p (provision_from k port_netns info o left i done p)
  unfolding provision_from reserved_count
  rest-IsComplete zero i done d p h eq = (λ j a b. absurd (omega (arith, a, b)), ground (arith, eq))
  rest-IsComplete (suc left) i done d p h eq = elim (Bool-cases (is_chosen o i p.slots)) [
    | inr idle ↦
        let e = from_idle left i done p idle in
        rw e (
          idle_step left i done d p h idle
            (rest-IsComplete left (i + 1) done d p (omega (arith, h)) (sym (ap (λ x. x.0) e) ∙ eq)))
    | inl chosen ↦
        let e = from_chosen left i done p chosen in
        let r = chosen_Reserved k port_netns info o alone i p.slots chosen (omega (arith, h)) in
        let (q, n, v, e2) =
          counted_ok o.mode i done d p (provision_slot k port_netns info o.mode i p)
            (λ f x. provision_from k port_netns info o left (i + 1) f x)
            (turn k port_netns info o alone i p (omega (arith, h)) r)
            (sym (ap (λ x. x.0) e) ∙ eq) in
        rw (e, e2)
          (chosen_step left i done d n p q h r v (
            rest-IsComplete left (i + 1) (done + 1) d q (omega (arith, h, v.others.bound))
              (sym (ap (λ x. x.0) (e ∙ e2)) ∙ eq)))
  ]

-- While no other process changes the slots, a `ProvisionPorts` for every port without a limit that
-- succeeds leaves no port Reserved, and reports as many as were Reserved before.
pub provision_ports_complete :
    (k : ProvisionAnswers) (port_netns : Bytes) (info : SlotInfo) (o : ProvisionOptions) (d : ℕ)
    (p : Provisioned)
    → IsAlone k
    → o.port ≡ 0
    → o.count ≡ 0
    → (provision_ports k port_netns info o p.slots.num_slots p).0 ≡ ok d
    → ((j : ℕ)
        → j < p.slots.num_slots
        → ((provision_ports k port_netns info o p.slots.num_slots p).1.slots.items j).inner_ip
          ≢ inner_ip_reserved)
      × (d ≡ reserved_count p.slots.num_slots 0 p.slots)
unfolding provision_ports
provision_ports_complete k port_netns info o d p alone every_port no_limit eq =
    let c =
      rest-IsComplete k port_netns info o alone every_port no_limit p.slots.num_slots 0 0 d p
        (omega arith) eq in
    (λ j h. c.0 j (omega arith) (omega (arith, h)), omega (arith, c.1))
