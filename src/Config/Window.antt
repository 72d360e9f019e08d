-- ===== src/Config/Window.antt =====
-- What a validated configuration gives the attachments of its switch (pkg/vswitch/config.go, slot.go and
-- geneve.go).
use native.Mathlib.Nat.{pow-suc}
use connector.Base.{
  ℕ, zero, suc, ◌+◌, ◌-◌, ◌*◌, ◌^◌, ◌≤◌, ◌<◌, ◌≡◌, refl, ap, ◌≢◌, ◌⊎◌, ok, arith, length,
}
use connector.Ip.{ip_to_uint32}
use connector.Identity.{max_ports, floating_ip_for_attachment, floating_ip_distinct}
use connector.Geneve.{geneve_locator_port, geneve_wire_port}
use connector.Geneve.Wire.{geneve_wire_port_slot}
use connector.Config.{
  Config, apply_geneve_defaults, check_base, validate_base, validate_geneve, switch_config,
}

-- The facts that the rest of the code relies on.
pub record IsValid (c : Config) : Type 0 where
  pub some_ports : 0 < c.num_ports
  pub few_ports : c.num_ports ≤ max_ports
  pub mac : length c.mac_addr ≡ 6
  pub bits : c.generation_bits ≤ 20
  pub window : ip_to_uint32 c.floating_ip_base + 2 ^ (12 + c.generation_bits) ≤ 4294967296
  pub geneve : validate_geneve c ≡ ok tt

check_base-IsValid : (c : Config) → check_base c ≡ ok tt → IsValid c
unfolding check_base
check_base-IsValid c h = record {
  some_ports = ground arith;
  few_ports = ground arith;
  mac = ground arith;
  bits = ground arith;
  window = ground arith;
  geneve = ground arith;
}

pub slot_bits : (n : ℕ) → 2 ^ (12 + n) ≡ 2 ^ n * 4096
slot_bits zero = refl
slot_bits (suc n) =
    let next : 12 + suc n ≡ suc (12 + n) = omega arith in
    rw next (omega (arith, pow-suc 2 (12 + n), pow-suc 2 n, slot_bits n))

-- With a configuration that the validation accepts, no floating address of its switch wraps or
-- leaves the window, and attachments that differ in the slot or the generation have different ones.
pub validate_base-floating :
    (c c' : Config) (i g j h : ℕ)
    → validate_base c ≡ (ok tt, c')
    → i < (switch_config c).n_ports
    → j < (switch_config c).n_ports
    → g < 2 ^ (switch_config c).generation_bits
    → h < 2 ^ (switch_config c).generation_bits
    → (i ≢ j) ⊎ (g ≢ h)
    → let base = (switch_config c).floating_ip_base in
      (base ≤ floating_ip_for_attachment base i g)
      × (floating_ip_for_attachment base i g < base + 2 ^ (switch_config c).generation_bits * 4096)
      × (floating_ip_for_attachment base i g ≢ floating_ip_for_attachment base j h)
unfolding validate_base switch_config
validate_base-floating c c' i g j h ok_c hi hj hg hh ne =
    let d = apply_geneve_defaults c in
    let v = check_base-IsValid d (ap (λ r. r.0) ok_c) in
    floating_ip_distinct (ip_to_uint32 d.floating_ip_base) d.generation_bits i g j h
      (rw (slot_bits d.generation_bits) at v.window) (omega (arith, v.few_ports))
      (omega (arith, v.few_ports)) hg hh ne

ports_fit :
    (c : Config)
    → validate_geneve c ≡ ok tt
    → 0 < c.num_ports
    → c.num_ports ≤ max_ports
    → c.geneve_port_base < 65536
    → c.geneve_locator ≡ geneve_locator_port
    → c.geneve_port_base + c.num_ports ≤ 65536
unfolding validate_geneve
ports_fit c h p q b l = ground arith

default_base-lt :
    (c : Config) → c.geneve_port_base < 65536 → (apply_geneve_defaults c).geneve_port_base < 65536
unfolding apply_geneve_defaults
default_base-lt c b = ground arith

-- With a configuration that the validation accepts and the port locator, no UDP port of a slot
-- wraps, and a receiver finds the slot as the distance from the base.
pub validate_base-ports :
    (c c' : Config) (slot : ℕ)
    → validate_base c ≡ (ok tt, c')
    → c.geneve_port_base < 65536
    → (switch_config c).geneve_locator ≡ geneve_locator_port
    → slot < (switch_config c).n_ports
    → (geneve_wire_port geneve_locator_port (switch_config c).geneve_port_base slot < 65536)
      × (geneve_wire_port geneve_locator_port (switch_config c).geneve_port_base slot
            - (switch_config c).geneve_port_base
          ≡ slot)
unfolding validate_base switch_config
validate_base-ports c c' slot ok_c b l hs =
    let d = apply_geneve_defaults c in
    let v = check_base-IsValid d (ap (λ r. r.0) ok_c) in
    let fits = ports_fit d v.geneve v.some_ports v.few_ports (default_base-lt c b) l in
    rw (geneve_wire_port_slot d.geneve_port_base d.num_ports slot fits hs)
      (omega arith, omega arith)
