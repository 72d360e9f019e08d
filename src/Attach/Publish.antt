-- ===== src/Attach/Publish.antt =====
-- The publication that ends a successful Attach (pkg/vswitch/attach.go): the option length and the
-- generation, then the counters, and the dataplane last.
use connector.Base.{ℕ, Bool, true, false, Result, ok, err}
use connector.Slots.{SlotItem, update_slot_fields}
use connector.Stats.{StatsManager, StatsError, reset_stats}
use connector.Switch.{World, Kernel, reset_counters}
use connector.Switch.Act.{Act, ◌>>◌, interfere}
use connector.Attach.Options.{AttachOptions, Prepared}

abbrev pub port_f_up : ℕ
port_f_up = 1

abbrev pub hinted : AttachOptions → Prepared → SlotItem → SlotItem
hinted opts p i = record i { geneve_opts_len = p.value.len; generation = opts.generation }

abbrev pub ready : SlotItem → SlotItem
ready i = record i { stats_ready = 1 }

abbrev pub up : SlotItem → SlotItem
up i = record i { flags = port_f_up }

abbrev pub set_hint : AttachOptions → Prepared → ℕ → Act (Unit {0})
set_hint opts p slot w =
    (ok tt, record w { slots = update_slot_fields w.slots slot (hinted opts p) })

abbrev pub set_ready : Result StatsError StatsManager → ℕ → World → World
set_ready (err _) slot w = w
set_ready (ok sm) slot w = record w { stats = sm; slots = update_slot_fields w.slots slot ready }

abbrev pub reset_step : ℕ → Act (Unit {0})
reset_step slot w = (ok tt, set_ready (reset_stats w.stats slot) slot w)

-- `if !opts.AdminDown { SetFlags(PortFUp) }`, the last step.
abbrev pub set_up : Bool → ℕ → Act (Unit {0})
set_up true slot w = (ok tt, w)
set_up false slot w = (ok tt, record w { slots = update_slot_fields w.slots slot up })

unfoldable pub publish : Kernel → AttachOptions → Prepared → ℕ → Act (Unit {0})
publish k opts p slot = do
  set_hint opts p slot
  interfere k reset_counters
  reset_step slot
  set_up opts.admin_down slot
