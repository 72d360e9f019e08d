-- ===== src/Status/Devices.antt =====
-- When a device condition of pkg/vswitch/status.go is True.
use connector.Base.{
  ℕ, ◌+◌, ◌≡◌, refl, ◌≢◌, inl, inr, Bool, true, some, List, [], ◌∷◌, arith, All, length,
  Option-cases, Bool-cases, ◌↔◌,
}
use connector.Status.{
  port_devices_ready, Link, Links, Tally, status_true, no_devices, tally_index, tally_ports,
  tally_link, tally_links, check_port_devices, check_mgmt_devices, check_transit_device,
  port_reason, condition,
}
use connector.Status.Walk.{PortCheck}

-- A port's device is there and up.
abbrev pub PortOk : Links → ℕ → Type 0
PortOk links n = (n ≢ 0) × (l : Link) × (links n ≡ some l) × (l.flag_up ≡ true)

abbrev Clean : Tally → Type 0
Clean t = (t.missing ≡ 0) × (t.down ≡ 0)

-- One device counts as up exactly if it is.
Clean-tally_index :
    (links : Links) (n : ℕ) (t : Tally)
    → Clean (tally_index links n t)
    → Clean t × PortOk links n × ((tally_index links n t).up ≡ t.up + 1)
Clean-tally_index links n t h = elim (Option-cases (links n)) [
  | inl e ↦ absurd (ground (arith, e, h))
  | inr (l, e) ↦ elim (Bool-cases l.flag_up) [
    | inl up ↦
        let ne : n ≢ 0 = λ z. ground (arith, e, up, h, z) in
        (ground (arith, e, up, h, ne), (ne, l, e, up), ground (arith, e, up, h, ne))
    | inr down ↦ absurd (ground (arith, e, down, h))
  ]
]

tally_index-Clean :
    (links : Links) (n : ℕ) (t : Tally)
    → Clean t
    → PortOk links n
    → Clean (tally_index links n t) × ((tally_index links n t).up ≡ t.up + 1)
tally_index-Clean links n t c (ne, l, e, up) = ground (arith, e, up, ne)

Clean-tally_ports :
    (links : Links) (pcs : List PortCheck) (t : Tally)
    → Clean (tally_ports links pcs t)
    → Clean t
      × All (λ pc. PortOk links pc.port_ifindex) pcs
      × ((tally_ports links pcs t).up ≡ t.up + length pcs)
unfolding tally_ports
Clean-tally_ports links [] t h = (h, tt, omega arith)
Clean-tally_ports links (pc ∷ pcs) t h =
    let (c, a, u) = Clean-tally_ports links pcs (tally_index links pc.port_ifindex t) h in
    let (c', ok_here, u') = Clean-tally_index links pc.port_ifindex t c in
    (c', (ok_here, a), omega (arith, u, u'))

tally_ports-Clean :
    (links : Links) (pcs : List PortCheck) (t : Tally)
    → Clean t
    → All (λ pc. PortOk links pc.port_ifindex) pcs
    → Clean (tally_ports links pcs t)
unfolding tally_ports
tally_ports-Clean links [] t c a = c
tally_ports-Clean links (pc ∷ pcs) t c (ok_here, a) =
    tally_ports-Clean links pcs (tally_index links pc.port_ifindex t)
      (tally_index-Clean links pc.port_ifindex t c ok_here).0 a

pub All-map {ℓ κ μ} :
    {A : Type ℓ} {P : A → Type κ} {Q : A → Type μ} (f : (a : A) → P a → Q a) (xs : List A)
    → All P xs
    → All Q xs
All-map f [] h = tt
All-map f (x ∷ xs) (p, h) = (f x p, All-map f xs h)

reason_true :
    (block_filter : Bool) (t : Tally)
    → status_true (condition port_devices_ready (port_reason block_filter t)).status ≡ true
    → Clean t × (t.up ≢ 0 → block_filter ≡ true)
reason_true block_filter t h = ((ground (arith, h), ground (arith, h)), λ u. ground (arith, h, u))

true_reason :
    (block_filter : Bool) (t : Tally)
    → Clean t
    → block_filter ≡ true
    → status_true (condition port_devices_ready (port_reason block_filter t)).status ≡ true
true_reason block_filter t c f = ground (arith, c, f)

-- The condition of the ports is True exactly if every port's device is there and up and, when there
-- is a port, the shared filter is.
pub check_port_devices_iff :
    (pcs : List PortCheck) (links : Links) (block_filter : Bool)
    → (status_true (check_port_devices pcs links block_filter).status ≡ true)
      ↔ (All (λ pc. PortOk links pc.port_ifindex × (block_filter ≡ true)) pcs)
unfolding check_port_devices
check_port_devices_iff [] links block_filter = (λ h. tt, λ h. refl)
check_port_devices_iff (pc ∷ pcs) links block_filter = (to, from)
  where
    to :
        status_true (check_port_devices (pc ∷ pcs) links block_filter).status ≡ true
        → All (λ pc. PortOk links pc.port_ifindex × (block_filter ≡ true)) (pc ∷ pcs)
    to h =
        let (c, f) = reason_true block_filter (tally_ports links (pc ∷ pcs) no_devices) h in
        let (_, a, u) = Clean-tally_ports links (pc ∷ pcs) no_devices c in
        All-map (λ x p. (p, f (λ z. absurd (omega (arith, u, z))))) (pc ∷ pcs) a

    from :
        All (λ pc. PortOk links pc.port_ifindex × (block_filter ≡ true)) (pc ∷ pcs)
        → status_true (check_port_devices (pc ∷ pcs) links block_filter).status ≡ true
    from a =
        true_reason block_filter (tally_ports links (pc ∷ pcs) no_devices)
          (tally_ports-Clean links (pc ∷ pcs) no_devices (refl, refl)
            (All-map (λ x p. p.0) (pc ∷ pcs) a))
          a.0.1

-- A management or transit device is there, up, and filtered.
abbrev pub LinkOk : (Link → Bool) → Links → ℕ → Type 0
LinkOk is_up links n = (l : Link) × (links n ≡ some l) × (is_up l ≡ true) × (l.has_tc_filter ≡ true)

abbrev CleanLinks : Tally → Type 0
CleanLinks t = (t.missing ≡ 0) × (t.down ≡ 0) × (t.missing_tc ≡ 0)

CleanLinks-tally_link :
    (is_up : Link → Bool) (links : Links) (n : ℕ) (t : Tally)
    → CleanLinks (tally_link is_up (links n) t)
    → CleanLinks t × LinkOk is_up links n
CleanLinks-tally_link is_up links n t h = elim (Option-cases (links n)) [
  | inl e ↦ absurd (ground (arith, e, h))
  | inr (l, e) ↦ elim (Bool-cases (is_up l)) [
    | inr down ↦ absurd (ground (arith, e, down, h))
    | inl up ↦ elim (Bool-cases l.has_tc_filter) [
      | inl f ↦ (ground (arith, e, up, f, h), (l, e, up, f))
      | inr no_filter ↦ absurd (ground (arith, e, up, no_filter, h))
    ]
  ]
]

tally_link_same :
    (is_up : Link → Bool) (links : Links) (n : ℕ) (t : Tally)
    → CleanLinks t
    → LinkOk is_up links n
    → tally_link is_up (links n) t ≡ t
tally_link_same is_up links n t c (l, e, up, f) = rw (e, up, f) refl

CleanLinks-tally_links :
    (is_up : Link → Bool) (links : Links) (ns : List ℕ) (t : Tally)
    → CleanLinks (tally_links is_up links ns t)
    → CleanLinks t × All (LinkOk is_up links) ns
unfolding tally_links
CleanLinks-tally_links is_up links [] t h = (h, tt)
CleanLinks-tally_links is_up links (n ∷ ns) t h =
    let (c, a) = CleanLinks-tally_links is_up links ns (tally_link is_up (links n) t) h in
    let (c', ok_here) = CleanLinks-tally_link is_up links n t c in (c', (ok_here, a))

tally_links-CleanLinks :
    (is_up : Link → Bool) (links : Links) (ns : List ℕ) (t : Tally)
    → CleanLinks t
    → All (LinkOk is_up links) ns
    → CleanLinks (tally_links is_up links ns t)
unfolding tally_links
tally_links-CleanLinks is_up links [] t c a = c
tally_links-CleanLinks is_up links (n ∷ ns) t c (ok_here, a) =
    tally_links-CleanLinks is_up links ns (tally_link is_up (links n) t)
      (rw (tally_link_same is_up links n t c ok_here) c) a

pub check_mgmt_devices_iff :
    (ns : List ℕ) (links : Links)
    → (status_true (check_mgmt_devices ns links).status ≡ true)
      ↔ (All (LinkOk (λ l. l.flag_up) links) ns)
unfolding check_mgmt_devices
check_mgmt_devices_iff ns links =
    let t = tally_links (λ l. l.flag_up) links ns no_devices in
    (
      (λ h.
          (CleanLinks-tally_links (λ l. l.flag_up) links ns no_devices
            (ground (arith, h), ground (arith, h), ground (arith, h))).1),
      λ a.
          let c =
            tally_links-CleanLinks (λ l. l.flag_up) links ns no_devices (refl, refl, refl) a in
          ground (arith, c),
    )

pub check_transit_device_iff :
    (ns : List ℕ) (links : Links)
    → (status_true (check_transit_device ns links).status ≡ true)
      ↔ (All (LinkOk (λ l. l.oper_up) links) ns)
unfolding check_transit_device
check_transit_device_iff ns links = (
  (λ h.
      (CleanLinks-tally_links (λ l. l.oper_up) links ns no_devices
        (ground (arith, h), ground (arith, h), ground (arith, h))).1),
  λ a.
      let c = tally_links-CleanLinks (λ l. l.oper_up) links ns no_devices (refl, refl, refl) a in
      ground (arith, c),
)
