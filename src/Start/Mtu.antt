-- ===== src/Start/Mtu.antt =====
-- The transit MTU that a start settles is enough for the attachments (pkg/vswitch/lifecycle.go, attach.go).
use connector.Base.{
  ℕ, ◌+◌, ◌≤◌, ◌≡◌, refl, true, Option, none, some, ok, arith, ◌==◌, if◌then◌else◌, ℤ, pos, negsuc,
  Bool-cases, inl, inr,
}
use connector.Attach.Prepare.{compare_mtu}
use connector.Geneve.{max_geneve_opts_len}
use connector.Config.{Config}
use connector.Start.{
  resolve_transit_mtu, required_mtu, base_overhead, options_overhead, check_configured,
  check_device,
}

-- The MTU that the transit device ends up with: the configured one if it is positive.
abbrev pub chosen : Option ℕ → ℤ → Option ℕ
chosen device (negsuc _) = device
chosen device (pos n) = if n == 0 then device else some n

abbrev pub HasRoom : ℕ → Option ℕ → Type 0
HasRoom required mtu = (n : ℕ) × (mtu ≡ some n) × (required ≤ n)

check_device-ok :
    (device : Option ℕ) (required : ℕ)
    → check_device device required ≡ ok tt
    → HasRoom required device
check_device-ok none required h = cc
check_device-ok (some n) required h = (n, refl, ground arith)

check_configured-ok :
    (m : ℤ) (device : Option ℕ) (required : ℕ)
    → check_configured m device required ≡ ok tt
    → HasRoom required (chosen device m)
check_configured-ok (negsuc n) device required h = check_device-ok device required h
check_configured-ok (pos n) device required h = elim (Bool-cases (n == 0)) [
  | inl e ↦ rw e (check_device-ok device required (rw e at h))
  | inr e ↦ rw e (n, refl, ground arith)
]

-- A start that settles an MTU has room for the largest port, the encapsulation and the locator's
-- fixed options: the transit device, configured or as it is, carries at least their sum.
pub resolve_transit_mtu-HasRoom :
    (device : Option ℕ) (c c' : Config) (port_mtu : ℕ)
    → resolve_transit_mtu device c port_mtu ≡ (ok tt, c')
    → HasRoom (required_mtu c port_mtu) (chosen device c'.transit_dev_mtu)
unfolding resolve_transit_mtu
resolve_transit_mtu-HasRoom device c c' port_mtu h = elim (Bool-cases c.transit_dev_mtu_auto) [
  | inl auto ↦
      let result : c' ≡ record c { transit_dev_mtu = pos (required_mtu c port_mtu) } =
        ground arith in
      rw result (required_mtu c port_mtu, ground arith, omega arith)
  | inr manual ↦
      let checked : check_configured c.transit_dev_mtu device (required_mtu c port_mtu) ≡ ok tt =
        ground arith in
      let result : c' ≡ c = ground arith in
      rw result (check_configured-ok c.transit_dev_mtu device (required_mtu c port_mtu) checked)
]

compare_mtu-room :
    (overhead mtu n : ℕ) → mtu + overhead ≤ n → compare_mtu overhead (some mtu) (some n) ≡ ok tt
compare_mtu-room overhead mtu n b = ground arith

auto_overhead :
    (c : Config) → c.transit_dev_mtu_auto ≡ true → options_overhead c ≡ max_geneve_opts_len
unfolding options_overhead
auto_overhead c e = rw e refl

required_sum :
    (c : Config) (port_mtu : ℕ)
    → required_mtu c port_mtu ≡ port_mtu + base_overhead c.geneve_encap_eth + options_overhead c
unfolding required_mtu
required_sum c port_mtu = refl

-- In automatic mode, on a port whose MTU is at most the one that the start looked at, every later attachment
-- fits, whatever its options: the check of Attach passes for any length that they can have. A port with a
-- larger MTU is not covered.
pub resolve_transit_mtu-attach :
    (device : Option ℕ) (c c' : Config) (port_mtu mtu total : ℕ)
    → c.transit_dev_mtu_auto ≡ true
    → resolve_transit_mtu device c port_mtu ≡ (ok tt, c')
    → mtu ≤ port_mtu
    → total ≤ max_geneve_opts_len
    → compare_mtu
        (base_overhead c.geneve_encap_eth + total)
        (some mtu)
        (chosen device c'.transit_dev_mtu)
      ≡ ok tt
resolve_transit_mtu-attach device c c' port_mtu mtu total auto h small short =
    let (n, e, room) = resolve_transit_mtu-HasRoom device c c' port_mtu h in
    rw e (
      compare_mtu-room (base_overhead c.geneve_encap_eth + total) mtu n
        (omega (arith, required_sum c port_mtu, auto_overhead c auto, room)))
