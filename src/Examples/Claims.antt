-- ===== src/Examples/Claims.antt =====
-- Slots of a switch of three ports, and who claims them.
use connector.Base.{ℕ, [], ◌∷◌, List}
use connector.Slots.{MmappedSlots, SlotItem, MgmtCidr, zero_mac}
use connector.Slots.Contention.{Call, allocates, releases, reserves, unreserves}

abbrev pub no_cidr : MgmtCidr
no_cidr = record { ip = 0; mask = 0; ifindex = 0; mgmt_mac = zero_mac }

-- A slot with a device and nothing else.
abbrev pub slot_with : ℕ → SlotItem
slot_with ip = record {
  ifindex = 11;
  inner_ip = ip;
  transit_ifindex = 0;
  transit_ip = 0;
  transit_gateway_ip = 0;
  transit_geneve_vni = 0;
  transit_mac = zero_mac;
  mode = 0;
  geneve_opts_len = 0;
  mgmt_cidr_count = 0;
  mgmt_cidrs = λ j. no_cidr;
  generation = 0;
  flags = 0;
  stats_ready = 0;
}

abbrev pub three_free : MmappedSlots
three_free = record { items = λ i. slot_with 0; num_slots = 3 }

abbrev all_taken : MmappedSlots
all_taken = record { items = λ i. slot_with 10; num_slots = 3 }

-- Two sandboxes claim port 0, the winner gives it up, and management takes it.
abbrev exchange : List Call
exchange = allocates 0 10 ∷ allocates 0 20 ∷ releases 0 10 ∷ reserves 0 0 ∷ unreserves 0 ∷ []
