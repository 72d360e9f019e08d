-- ===== src/Reserve/Force.antt =====
-- What Reserve does (pkg/vswitch/attach.go).
use connector.Base.{
  ℕ, ◌<◌, ◌≡◌, refl, ◌≢◌, ◌⊎◌, inl, inr, true, false, ◌&&◌, List, [], ◌∷◌, All, Result, ok, err,
  arith, Bool-cases, ◌==◌, ◌-◌, ◌+◌, ◌≤◌, if◌then◌else◌, u32, sym, ap, ◌∙◌,
}
use connector.Slots.{
  SlotItem, MmappedSlots, inner_ip_free, inner_ip_reserved, get_inner_ip, update_slot_fields,
}
use connector.Slots.Cas.{is_slot_allocated, try_reserve, try_allocate}
use connector.Slots.Laws.{SameBut}
use connector.Switch.{World, Kernel, SwitchContext, SwitchError, already_reserved, port_allocated}
use connector.Switch.Abi.{has_port_up}
use connector.Reserve.{
  ReserveOptions, ReserveStatus, ReserveOutput, newly_reserved, was_reserved, clear_publication,
  cas_reserve, force_reserve, plain_reserve, reserve_slot, reserve, reported,
}

-- The interference keeps the size of the map.
abbrev pub KeepsBound : (World → World) → Type 0
KeepsBound f = (w : World) → (f w).slots.num_slots ≡ w.slots.num_slots

-- What a round wins: the slot was still held by `current`, and is Reserved.
try_reserve-cases :
    (m : MmappedSlots) (i current : ℕ)
    → current ≢ inner_ip_reserved
    → i < m.num_slots
    → ((try_reserve m i current).0 ≡ true)
        × ((m.items i).inner_ip ≡ current)
        × ((try_reserve m i current).1.items i
            ≡ record (m.items i) { inner_ip = inner_ip_reserved })
        × SameBut i m (try_reserve m i current).1
      ⊎ (try_reserve m i current ≡ (false, m)) × ((m.items i).inner_ip ≢ current)
unfolding try_reserve
try_reserve-cases m i current ne r = elim (Bool-cases ((m.items i).inner_ip == current)) [
  | inl e ↦ inl (
    ground arith,
    ground arith,
    ground arith,
    record { others = λ j ne. ground arith; bound = ground arith },
  )
  | inr e ↦ inr (ground arith, ground arith)
]

abbrev pub IsReserved : ℕ → World → Type 0
IsReserved slot w = (w.slots.items slot).inner_ip ≡ inner_ip_reserved

clear_publication-owner :
    (s : SwitchContext) (slot current : ℕ) (w : World)
    → ((clear_publication s slot current w).slots.items slot).inner_ip
      ≡ (w.slots.items slot).inner_ip
unfolding clear_publication update_slot_fields
clear_publication-owner s slot current w = ground arith

read-reserved :
    (m : MmappedSlots) (slot : ℕ)
    → slot < m.num_slots
    → (get_inner_ip m slot == inner_ip_reserved) ≡ true
    → (m.items slot).inner_ip ≡ inner_ip_reserved
unfolding get_inner_ip
read-reserved m slot r e = ground arith

-- A round whose CAS wins leaves the slot Reserved.
won-IsReserved :
    (s : SwitchContext) (slot current : ℕ) (w : World)
    → (try_reserve w.slots slot current).1.items slot
      ≡ record (w.slots.items slot) { inner_ip = inner_ip_reserved }
    → IsReserved slot (clear_publication s slot current (cas_reserve slot current w).1)
won-IsReserved s slot current w item =
    clear_publication-owner s slot current (cas_reserve slot current w).1
    ∙ ap (λ i. i.inner_ip) item

-- The read is in range, so it is the owner of the slot.
read_owner-item :
    (m : MmappedSlots) (slot : ℕ)
    → slot < m.num_slots
    → get_inner_ip m slot ≡ (m.items slot).inner_ip
unfolding get_inner_ip
read_owner-item m slot r = ground arith

Reserves : ℕ → Result SwitchError ReserveStatus × World → Type 0
Reserves slot (ok _, w) = IsReserved slot w
Reserves slot (err _, w) = ⊥

-- However often other processes change the slot between the read and the CAS, the loop ends, and
-- the slot is Reserved.
force_reserve-Reserves :
    (s : SwitchContext) (slot : ℕ) (fs : List (World → World)) (w : World)
    → All KeepsBound fs
    → slot < w.slots.num_slots
    → Reserves slot (force_reserve s slot fs w)
unfolding force_reserve Reserves
force_reserve-Reserves s slot [] w keeps r =
    let current = get_inner_ip w.slots slot in
    elim (Bool-cases (current == inner_ip_reserved)) [
      | inl e ↦ rw e (read-reserved w.slots slot r e)
      | inr e ↦ elim (try_reserve-cases w.slots slot current (ground arith) r) [
        | inl (won, _, item, _) ↦ rw (e, won) (won-IsReserved s slot current w item)
        | inr (_, other) ↦ absurd (other (sym (read_owner-item w.slots slot r)))
      ]
    ]
force_reserve-Reserves s slot (f ∷ fs) w keeps r =
    let current = get_inner_ip w.slots slot in
    let v = f w in
    let in_v : slot < v.slots.num_slots = rw (keeps.0 w) r in
    elim (Bool-cases (current == inner_ip_reserved)) [
      | inl e ↦ rw e (read-reserved w.slots slot r e)
      | inr e ↦ elim (try_reserve-cases v.slots slot current (ground arith) in_v) [
        | inl (won, _, item, _) ↦ rw (e, won) (won-IsReserved s slot current v item)
        | inr (lost, _) ↦ rw (e, lost) (force_reserve-Reserves s slot fs v keeps.1 in_v)
      ]
    ]

reported-Reserves :
    (slot : ℕ) (r : Result SwitchError ReserveStatus × World)
    → Reserves slot r
    → (out : ReserveOutput) × (reported slot r ≡ (ok out, r.1))
      × (out.port ≡ slot + 1)
      × IsReserved slot r.1
unfolding Reserves
reported-Reserves slot (ok status, w) h =
    (record { port = slot + 1; status = status }, refl, refl, h)
reported-Reserves slot (err x, w) h = absurd h

-- A forced Reserve that names a port of the switch, whose slots are all mapped, and whose control lock
-- does not fail always ends with success and with the slot Reserved, however often other processes
-- change the slot meanwhile.
pub force-IsReserved :
    (k : Kernel) (s : SwitchContext) (opts : ReserveOptions) (fs : List (World → World)) (w : World)
    → All KeepsBound fs
    → opts.force ≡ true
    → 0 < opts.port
    → u32 (opts.port - 1) < s.cfg.n_ports
    → s.cfg.n_ports ≤ w.slots.num_slots
    → k.control_lock_fails ≡ false
    → (out : ReserveOutput) × (w' : World) × (reserve k s opts fs w ≡ (ok out, w'))
      × (out.port ≡ u32 (opts.port - 1) + 1)
      × IsReserved (u32 (opts.port - 1)) w'
unfolding reserve reserve_slot
force-IsReserved k s opts fs w keeps force some_port in_switch in_map lock =
    let slot = u32 (opts.port - 1) in
    let r = force_reserve s slot fs w in
    let (out, done, port, reserved) =
      reported-Reserves slot r (force_reserve-Reserves s slot fs w keeps (omega arith)) in
    let runs : reserve k s opts fs w ≡ reported slot r = ground arith in
    (out, r.1, runs ∙ done, port, reserved)

-- What a forced Reserve that nobody interferes with does to the slot: one that a sandbox held loses
-- its publication and its hint.
abbrev seized : SwitchContext → SlotItem → SlotItem
seized s item =
    if s.has_geneve_opts && has_port_up s.cfg && is_slot_allocated item.inner_ip
    then record item { inner_ip = inner_ip_reserved; flags = 0; geneve_opts_len = 0 }
    else record item { inner_ip = inner_ip_reserved }

-- The result of a Reserve of `slot` on the slot as it was, slot by slot of the result.
abbrev pub Outcome : SwitchContext → ReserveOptions → ℕ → ℕ → World → Type 0
Outcome s opts slot j w =
    let (result, w') = reserve_slot s opts slot [] w in
    let item = w.slots.items slot in
    ((opts.force ≡ true)
        × (item.inner_ip ≡ inner_ip_reserved)
        × (result ≡ ok was_reserved)
        × (w'.slots.items slot ≡ item)
      ⊎ (opts.force ≡ true)
        × (item.inner_ip ≢ inner_ip_reserved)
        × (result ≡ ok newly_reserved)
        × (w'.slots.items slot ≡ seized s item)
      ⊎ (opts.force ≡ false)
        × (item.inner_ip ≡ inner_ip_free)
        × (result ≡ ok newly_reserved)
        × (w'.slots.items slot ≡ record item { inner_ip = inner_ip_reserved; stats_ready = 0 })
      ⊎ (opts.force ≡ false)
        × (item.inner_ip ≡ inner_ip_reserved)
        × (result ≡ err already_reserved)
        × (w'.slots.items slot ≡ item)
      ⊎ (opts.force ≡ false)
        × (is_slot_allocated item.inner_ip ≡ true)
        × (result ≡ err port_allocated)
        × (w'.slots.items slot ≡ item))
    × (w'.slots.items j ≡ w.slots.items j)
    × (w'.geneve_opts ≡ w.geneve_opts)
    × (w'.stats ≡ w.stats)

-- With no interference: a plain Reserve turns a Free slot into a Reserved one and refuses every other,
-- unchanged; a forced one takes the slot from whoever holds it, and withdraws the publication of a
-- sandbox on a switch that publishes ports. Neither changes another slot, the options or the counters.
pub reserve_slot_quiet :
    (s : SwitchContext) (opts : ReserveOptions) (slot j : ℕ) (w : World)
    → slot < w.slots.num_slots
    → j ≢ slot
    → Outcome s opts slot j w
unfolding reserve_slot force_reserve plain_reserve clear_publication try_reserve try_allocate
    update_slot_fields get_inner_ip
reserve_slot_quiet s opts slot j w r ne = ground arith
