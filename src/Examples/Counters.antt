-- ===== src/Examples/Counters.antt =====
-- Stats of a port, when nothing changes and when the port changes hands between its reads.
use connector.Base.{ℕ, arith, Bool, ◌+◌, ◌≡◌, ◌↔◌, refl, true, List, [], ◌∷◌, ok, All, map, Result}
use connector.Slots.{get_inner_ip}
use connector.Stats.{zero_stats, get_stats}
use connector.Switch.{World}
use connector.Status.Observe.{
  PortStatsOutput, StatsFailure, Read, first_ip, first_flags, first_ready, first_stats, held_ip,
  held_generation, second_stats, observe_port, stats,
}
use connector.Status.Observe.Expected.{IsObservable, InRange, report, asked}
use connector.Status.Observe.Quiet.{stats_quiet}
use connector.Examples.Claims.{slot_with}
use connector.Examples.Attachment.{switch, counters, start}

-- All three slots have the holder, the generation and the flags; their counters are of generation `c`.
abbrev held : ℕ → ℕ → ℕ → ℕ → World
held ip generation up c = record start {
  slots = record {
    items = λ i. record (slot_with ip) { generation = generation; flags = up; stats_ready = up };
    num_slots = 3;
  };
  stats = record counters { entries = λ i. record (zero_stats c) { mgmt_rx_packets = 100 + c } };
}

stats_quiet_example :
    (stats switch (λ _. held 10 1 1 4) (λ _ _. held 10 1 1 4) true true (2 ∷ [])
      ≡ ok (report switch (held 10 1 1 4) 1 ∷ []))
    ↔ (◌≡◌ {A = Bool} true true
        × ◌≡◌ {A = Bool} true true
        × InRange 3 (2 ∷ [])
        × All (IsObservable switch (held 10 1 1 4)) (asked (held 10 1 1 4) 3 (2 ∷ []))
        × (report switch (held 10 1 1 4) 1 ∷ []
            ≡ map (report switch (held 10 1 1 4)) (asked (held 10 1 1 4) 3 (2 ∷ []))))
stats_quiet_example =
    stats_quiet switch (held 10 1 1 4) true true (2 ∷ []) (report switch (held 10 1 1 4) 1 ∷ [])
      (omega arith) (omega arith)

-- The holder 10 leaves behind the first reads, 20 attaches and has published its generation, but has
-- not reset the counters; it resets them and is up before the last reads.
abbrev takeover : Read → World
takeover first_ip = held 10 1 1 4
takeover first_flags = held 10 1 1 4
takeover first_ready = held 10 1 1 4
takeover first_stats = held 10 1 1 4
takeover held_ip = held 20 2 0 4
takeover held_generation = held 20 2 0 4
takeover second_stats = held 20 2 0 4
takeover _ = held 20 2 1 5

abbrev identity_of : Result StatsFailure PortStatsOutput → List ℕ
identity_of (ok p) = p.inner_ip ∷ p.generation ∷ p.counters.mgmt_rx_packets ∷ []
identity_of _ = []

-- The counters of 10 are identity_of as those of 20.
misattributes : identity_of (observe_port switch takeover 0) ≡ 20 ∷ 2 ∷ 104 ∷ []
unfolding observe_port get_stats get_inner_ip
misattributes = refl
