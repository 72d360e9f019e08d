-- ===== src/Examples/Words.antt =====
-- Addresses, MACs, wire values and counters on concrete numbers.
use connector.Base.{◌+◌, ◌≡◌, refl, arith, some, [], ◌∷◌, ok, true, false}
use connector.Ip.{ip_to_uint32}
use connector.Mac.{port_mac}
use connector.Geneve.{
  geneve_wire_port, geneve_locator_port, geneve_locator_vni, validate_transit_geneve_vni,
}
use connector.Geneve.Wire.{geneve_wire_port_slot}
use connector.Stats.{StatsManager, zero_stats, reset_stats, update}

loopback : ip_to_uint32 (127 ∷ 0 ∷ 0 ∷ 1 ∷ []) ≡ 2130706433
unfolding ip_to_uint32
loopback = refl

first_mac : port_mac (2 ∷ 0 ∷ 0 ∷ 0 ∷ 0 ∷ 1 ∷ []) 5 ≡ some (2 ∷ 0 ∷ 0 ∷ 0 ∷ 128 ∷ 5 ∷ [])
unfolding port_mac
first_mac = refl

vni_accepted : validate_transit_geneve_vni geneve_locator_vni 77 ≡ ok tt
unfolding validate_transit_geneve_vni
vni_accepted = refl

geneve_wire_port_slot_example : geneve_wire_port geneve_locator_port 50000 9 ≡ 50000 + 9
geneve_wire_port_slot_example = geneve_wire_port_slot 50000 16 9 (omega arith) (omega arith)

abbrev counters : StatsManager
counters = record {
  num_ports = 2;
  locked_reads = true;
  entries = λ i. record (zero_stats 7) { mgmt_rx_packets = 5 };
  lookup_fails = λ i. false;
  update_fails = λ i. false;
}

reset_runs : reset_stats counters 1 ≡ ok (update counters 1 (zero_stats 8))
unfolding reset_stats
reset_runs = refl
