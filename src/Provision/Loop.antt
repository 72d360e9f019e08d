-- ===== src/Provision/Loop.antt =====
-- The loop of ProvisionPorts over the slots (pkg/vswitch/provision.go).
use connector.Base.{
  ℕ, zero, suc, ◌+◌, ◌-◌, Bool, true, false, not, ◌&&◌, ◌||◌, Result, ok, err, ltb, ◌==◌, Bytes,
  u32,
}
use connector.Slots.{MmappedSlots, inner_ip_reserved, get_inner_ip}
use connector.Provision.{
  ProvisionError, Provisioned, ProvisionAnswers, ProvisionOptions, SlotInfo, provision_slot,
}

-- The loop's state behind a slot: the count of those provisioned.
abbrev pub Looped : Type 0
Looped = Result ProvisionError ℕ × Provisioned

abbrev pub counted :
    Result ProvisionError (Unit {0}) × Provisioned → ℕ → (ℕ → Provisioned → Looped) → Looped
counted (err e, p) done next = (err e, p)
counted (ok _, p) done next = next (done + 1) p

abbrev pub is_chosen : ProvisionOptions → ℕ → MmappedSlots → Bool
is_chosen o i m = (o.port == 0 || i == u32 (o.port - 1)) && get_inner_ip m i == inner_ip_reserved

-- The wanted count is reached.
abbrev pub is_reached : ProvisionOptions → ℕ → Bool
is_reached o d = not (o.count == 0) && not (ltb d o.count)

-- The slots from `i`, of which `left` are to come; it ends early at the wanted count.
unfoldable pub provision_from :
    ProvisionAnswers → Bytes → SlotInfo → ProvisionOptions → ℕ → ℕ → ℕ → Provisioned → Looped
unfolding provision_slot
provision_from k port_netns info o zero i done p = (ok done, p)
provision_from k port_netns info o (suc left) i done p = elim (is_chosen o i p.slots) [
  | false ↦ provision_from k port_netns info o left (i + 1) done p
  | true ↦ counted (provision_slot k port_netns info o.mode i p) done λ d q. elim (is_reached o d) [
    | true ↦ (ok d, q)
    | false ↦ provision_from k port_netns info o left (i + 1) d q
  ]
]

unfoldable pub provision_ports :
    ProvisionAnswers → Bytes → SlotInfo → ProvisionOptions → ℕ → Provisioned → Looped
unfolding provision_from
provision_ports k port_netns info o n_ports p = provision_from k port_netns info o n_ports 0 0 p
