-- ===== src/Reserve.antt =====
-- Reserve of pkg/vswitch/attach.go. The forced reserve is a loop around a CAS: `others` lists what
-- other processes do between the read and the CAS of each round, and after the last one nobody
-- interferes any more.
pub mod Force
use connector.Base.{
  ℕ, ◌+◌, ◌-◌, Bool, true, false, not, ◌&&◌, List, [], ◌∷◌, Result, ok, err, ◌==◌, leb,
  if◌then◌else◌, u32,
}
use connector.Slots.{SlotItem, MmappedSlots, get_inner_ip, update_slot_fields, inner_ip_reserved}
use connector.Slots.Cas.{is_slot_allocated, try_allocate, try_reserve}
use connector.Switch.{
  World, SwitchContext, SwitchError, Kernel, port_required, port_out_of_range, port_allocated,
  already_reserved, control_lock_failed, still_contended,
}
use connector.Switch.Act.{Act, then_do, ◌>>=◌}
use connector.Switch.Abi.{has_port_up}

pub record ReserveOptions : Type 0 where
  pub port : ℕ
  pub force : Bool

pub data ReserveStatus : Type 0 where
  newly_reserved was_reserved : ReserveStatus

pub record ReserveOutput : Type 0 where
  pub port : ℕ
  pub status : ReserveStatus

abbrev pub unpublished : SlotItem → SlotItem
unpublished item = record item { flags = 0; geneve_opts_len = 0 }

-- What the winner of the forced CAS does to the slot that it took from `current`.
unfoldable pub clear_publication : SwitchContext → ℕ → ℕ → World → World
clear_publication s slot current w =
    if s.has_geneve_opts && has_port_up s.cfg && is_slot_allocated current
    then record w { slots = update_slot_fields w.slots slot unpublished }
    else w

-- One round; `again` is the rest of the loop, for a CAS that failed.
abbrev pub attempt :
    SwitchContext
    → ℕ
    → ℕ
    → Bool × World
    → Result SwitchError ReserveStatus × World
    → Result SwitchError ReserveStatus × World
attempt s slot current (won, w) again =
    if won then (ok newly_reserved, clear_publication s slot current w) else again

abbrev pub cas_reserve : ℕ → ℕ → World → Bool × World
cas_reserve slot current w =
    let r = try_reserve w.slots slot current in (r.0, record w { slots = r.1 })

unfoldable pub force_reserve : SwitchContext → ℕ → List (World → World) → Act ReserveStatus
force_reserve s slot [] w =
    let current = get_inner_ip w.slots slot in
    let r = cas_reserve slot current w in
    if current == inner_ip_reserved
    then (ok was_reserved, w)
    else attempt s slot current r (err still_contended, r.1)
force_reserve s slot (f ∷ fs) w =
    let current = get_inner_ip w.slots slot in
    let r = cas_reserve slot current (f w) in
    let again = force_reserve s slot fs r.1 in
    if current == inner_ip_reserved then (ok was_reserved, w) else attempt s slot current r again

-- Without force: CAS from Free; a failure only looks at the slot again.
unfoldable pub plain_reserve : ℕ → Act ReserveStatus
plain_reserve slot w =
    let r = try_allocate w.slots slot inner_ip_reserved in
    if r.0
    then (ok newly_reserved, record w { slots = r.1 })
    else if get_inner_ip r.1 slot == inner_ip_reserved
    then (err already_reserved, record w { slots = r.1 })
    else (err port_allocated, record w { slots = r.1 })

unfoldable pub reserve_slot :
    SwitchContext → ReserveOptions → ℕ → List (World → World) → Act ReserveStatus
reserve_slot s opts slot others w =
    if opts.force then force_reserve s slot others w else plain_reserve slot w

abbrev pub reported :
    ℕ → Result SwitchError ReserveStatus × World → Result SwitchError ReserveOutput × World
reported slot (ok status, w) = (ok (record { port = slot + 1; status = status }), w)
reported slot (err x, w) = (err x, w)

unfoldable pub reserve :
    Kernel → SwitchContext → ReserveOptions → List (World → World) → Act ReserveOutput
reserve k s opts others w =
    let slot = u32 (opts.port - 1) in
    if opts.port == 0
    then (err port_required, w)
    else if leb s.cfg.n_ports slot
    then (err port_out_of_range, w)
    else if s.has_geneve_opts && k.control_lock_fails
    then (err control_lock_failed, w)
    else reported slot (reserve_slot s opts slot others w)
