-- ===== src/Stats.antt =====
-- pkg/internal/bpfmap/stats.go: the per-slot counters. The kernel's map is the answers that it
-- gives: whether it supports locked reads, its entries, and which calls fail.
pub mod Laws
use connector.Base.{
  ℕ, ◌+◌, Bool, not, ◌==◌, if◌then◌else◌, leb, Result, ok, err, ◌>>=◌, ◌>>◌, refuse, ensure, u64,
}

pub record SlotStats : Type 0 where
  pub generation : ℕ
  pub mgmt_rx_packets : ℕ
  pub mgmt_rx_bytes : ℕ
  pub mgmt_tx_packets : ℕ
  pub mgmt_tx_bytes : ℕ
  pub transit_rx_packets : ℕ
  pub transit_rx_bytes : ℕ
  pub transit_tx_packets : ℕ
  pub transit_tx_bytes : ℕ

pub record StatsManager : Type 0 where
  pub num_ports : ℕ
  pub locked_reads : Bool
  pub entries : ℕ → SlotStats
  pub lookup_fails : ℕ → Bool
  pub update_fails : ℕ → Bool

pub data StatsError : Type 0 where
  out_of_range no_locked_reads read_failed generation_exhausted reset_failed : StatsError

abbrev pub max_uint64 : ℕ
max_uint64 = 18446744073709551615

-- `SlotStats{Generation: g}`.
abbrev pub zero_stats : ℕ → SlotStats
zero_stats g = record {
  generation = g;
  mgmt_rx_packets = 0;
  mgmt_rx_bytes = 0;
  mgmt_tx_packets = 0;
  mgmt_tx_bytes = 0;
  transit_rx_packets = 0;
  transit_rx_bytes = 0;
  transit_tx_packets = 0;
  transit_tx_bytes = 0;
}

unfoldable pub get_stats : StatsManager → ℕ → Result StatsError SlotStats
get_stats sm i = do
  refuse (leb sm.num_ports i) out_of_range
  ensure sm.locked_reads no_locked_reads
  refuse (sm.lookup_fails i) read_failed
  ok (sm.entries i)

unfoldable pub update : StatsManager → ℕ → SlotStats → StatsManager
update sm i s = record sm { entries = λ j. if j == i then s else sm.entries j }

unfoldable pub reset_stats : StatsManager → ℕ → Result StatsError StatsManager
unfolding get_stats update
reset_stats sm i = do
  previous ← get_stats sm i
  refuse (previous.generation == max_uint64) generation_exhausted
  refuse (sm.update_fails i) reset_failed
  ok (update sm i (zero_stats (u64 (previous.generation + 1))))
