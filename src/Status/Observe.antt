-- ===== src/Status/Observe.antt =====
-- Stats of pkg/vswitch/status.go. It reads slots and counters while others attach and detach: each of the
-- reads that it makes for a port sees the shared state of its own moment.
pub mod Expected
pub mod Quiet
use connector.Base.{
  ℕ, zero, suc, ◌+◌, ◌-◌, ◌*◌, ◌%◌, Bool, true, false, not, ◌&&◌, ◌||◌, Option, List, [], ◌∷◌,
  Result, ok, err, ◌>>=◌, ◌>>◌, ensure, refuse, ltb, ◌==◌, if◌then◌else◌, Bytes, u32, map,
}
use connector.Slots.{MmappedSlots, SlotItem, get_inner_ip}
use connector.Slots.Cas.{is_slot_allocated}
use connector.Stats.{SlotStats, StatsError, get_stats}
use connector.Identity.{floating_ip_for_attachment}
use connector.Mac.{get_port_mac}
use connector.Switch.{SwitchContext, World}
use connector.Switch.Abi.{has_port_up}

pub data StatsFailure : Type 0 where
  port_out_of_range port_not_attached stats_unavailable : StatsFailure

pub record PortStatsOutput : Type 0 where
  pub port : ℕ
  pub inner_ip : ℕ
  pub floating_ip : ℕ
  pub generation : ℕ
  pub port_mac : Option Bytes
  pub counters : SlotStats

-- The reads for one port, in the order of the source.
pub data Read : Type 0 where
  first_ip first_flags first_ready first_stats : Read
  held_ip held_generation second_stats second_flags second_ready second_ip second_generation : Read

abbrev pub reads_ready : SwitchContext → SlotItem → SlotItem → Bool
reads_ready s flags_at ready_at =
    s.has_geneve_opts
    && (not (has_port_up s.cfg) || flags_at.flags % 2 == 1)
    && ready_at.stats_ready == 1

abbrev pub counters_at : Result StatsError SlotStats → Result StatsFailure SlotStats
counters_at (ok st) = ok st
counters_at (err _) = err stats_unavailable

-- One port; `at` is the shared state at each read.
unfoldable pub observe_port :
    SwitchContext → (Read → World) → ℕ → Result StatsFailure PortStatsOutput
observe_port s at i = do
  ensure (is_slot_allocated (get_inner_ip (at first_ip).slots i)) port_not_attached
  ensure (reads_ready s ((at first_flags).slots.items i) ((at first_ready).slots.items i))
      stats_unavailable
  first ← counters_at (get_stats (at first_stats).stats i)
  let ip = get_inner_ip (at held_ip).slots i
  let generation = ((at held_generation).slots.items i).generation
  st ← counters_at (get_stats (at second_stats).stats i)
  refuse
      (first.generation == 0
        || not (first.generation == st.generation)
        || not (is_slot_allocated ip)
        || not (reads_ready s ((at second_flags).slots.items i) ((at second_ready).slots.items i))
        || not (get_inner_ip (at second_ip).slots i == ip)
        || not (((at second_generation).slots.items i).generation == generation))
      stats_unavailable
  ok (record {
    port = u32 (i + 1);
    inner_ip = ip;
    floating_ip = floating_ip_for_attachment s.cfg.floating_ip_base i generation;
    generation = generation;
    port_mac = get_port_mac s.cfg.switch_mac s.cfg.port_mac i;
    counters = st;
  })

abbrev pub and_port :
    Result StatsFailure PortStatsOutput
    → Result StatsFailure (List PortStatsOutput)
    → Result StatsFailure (List PortStatsOutput)
and_port (err e) rest = err e
and_port (ok p) (err e) = err e
and_port (ok p) (ok ps) = ok (p ∷ ps)

-- The ports in their order; `moments k` are the reads for the k-th of them.
unfoldable pub observe_ports :
    SwitchContext → (ℕ → Read → World) → ℕ → List ℕ → Result StatsFailure (List PortStatsOutput)
unfolding observe_port
observe_ports s moments k [] = ok []
observe_ports s moments k (i ∷ is) =
    and_port (observe_port s (moments k) i) (observe_ports s moments (k + 1) is)

abbrev pub check_range : ℕ → List ℕ → Result StatsFailure (Unit {0})
check_range n_ports [] = ok tt
check_range n_ports (p ∷ ps) =
    if ltb p 1 || ltb n_ports p then err port_out_of_range else check_range n_ports ps

-- Every slot that is allocated when the scan comes to it.
unfoldable pub allocated_from : (ℕ → World) → ℕ → ℕ → List ℕ
allocated_from scan zero i = []
allocated_from scan (suc left) i =
    if is_slot_allocated (get_inner_ip (scan i).slots i)
    then i ∷ allocated_from scan left (i + 1)
    else allocated_from scan left (i + 1)

abbrev pub selected : (ℕ → World) → ℕ → List ℕ → List ℕ
selected scan n_ports [] = allocated_from scan n_ports 0
selected scan n_ports (p ∷ ps) = map (λ q. u32 (q - 1)) (p ∷ ps)

-- `locks` is the outcome of the shared lock with its check of the switch, `verifies` of the last check.
unfoldable pub stats :
    SwitchContext
    → (ℕ → World)
    → (ℕ → Read → World)
    → Bool
    → Bool
    → List ℕ
    → Result StatsFailure (List PortStatsOutput)
unfolding observe_ports allocated_from
stats s scan moments locks verifies ports = do
  check_range s.cfg.n_ports ports
  ensure locks stats_unavailable
  out ← observe_ports s moments 0 (selected scan s.cfg.n_ports ports)
  ensure verifies stats_unavailable
  ok out
