-- ===== src/Geneve/Wire.antt =====
-- Where the slot id travels on the wire (pkg/vswitch/geneve.go): a receiver finds the slot again.
use connector.Base.{ℕ, ◌+◌, ◌*◌, ◌/◌, ◌%◌, ◌^◌, ◌≤◌, ◌<◌, ◌≡◌, ok, arith, u32, bit_or-field}
use connector.Geneve.{
  geneve_locator_port, geneve_locator_vni, geneve_wire_port, geneve_wire_vni,
  validate_transit_geneve_vni,
}

-- The VNI locator: a VNI that the validation accepts shares the 24 bits with the slot id, and the
-- slot is the upper 12 bits of the wire VNI, the sandbox's VNI the lower 12.
pub geneve_wire_vni_slot :
    (slot_id vni : ℕ)
    → slot_id < 4096
    → validate_transit_geneve_vni geneve_locator_vni vni ≡ ok tt
    → (geneve_wire_vni geneve_locator_vni slot_id vni < 2 ^ 24)
      × (geneve_wire_vni geneve_locator_vni slot_id vni / 4096 ≡ slot_id)
      × (geneve_wire_vni geneve_locator_vni slot_id vni % 4096 ≡ vni)
unfolding geneve_wire_vni validate_transit_geneve_vni
geneve_wire_vni_slot slot_id vni h v =
    let small : vni < 4096 = ground arith in
    let e = bit_or-field 12 slot_id (u32 (slot_id * 4096)) vni (omega arith) small in
    rw e (omega arith, omega arith, omega arith)

-- The port locator: with a base that the configuration check accepts for the number of ports, no
-- UDP port wraps, and the slot is the distance from the base.
pub geneve_wire_port_slot :
    (base num_ports slot_id : ℕ)
    → base + num_ports ≤ 65536
    → slot_id < num_ports
    → geneve_wire_port geneve_locator_port base slot_id ≡ base + slot_id
unfolding geneve_wire_port
geneve_wire_port_slot base num_ports slot_id b h = omega arith
