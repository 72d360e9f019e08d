-- ===== src/Stats/Laws.antt =====
-- The generation of a counter (pkg/internal/bpfmap/stats.go) tells one attachment from the next.
use connector.Base.{ℕ, ◌+◌, ◌≤◌, ◌<◌, ◌≡◌, ◌≢◌, ok, arith}
use connector.Stats.{StatsManager, zero_stats, reset_stats, max_uint64}

-- A reset that succeeds clears every counter of the slot under the next generation, which has not
-- wrapped, and leaves the other slots alone.
pub reset_stats_ok :
    (sm sm' : StatsManager) (i j : ℕ)
    → (sm.entries i).generation ≤ max_uint64
    → reset_stats sm i ≡ ok sm'
    → j ≢ i
    → (sm'.entries i ≡ zero_stats ((sm.entries i).generation + 1))
      × ((sm.entries i).generation < max_uint64)
      × (sm'.entries j ≡ sm.entries j)
unfolding reset_stats
reset_stats_ok sm sm' i j b h ne = ground arith
