-- ===== src/Status/Observe/Quiet.antt =====
-- What Stats reports while nothing changes (pkg/vswitch/status.go).
use connector.Base.{
  ℕ, ◌+◌, ◌<◌, ◌≡◌, refl, sym, ◌≢◌, inl, inr, Bool, true, false, not, ◌||◌, List, [], ◌∷◌, Result,
  ok, err, refuse-ok, ensure-ok, >>=-ok, ◌==◌, u32, map, arith, All, ◌↔◌, ◌∙◌, ap, Result-cases,
}
use connector.Slots.{get_inner_ip}
use connector.Slots.Cas.{is_slot_allocated}
use connector.Stats.{SlotStats, get_stats}
use connector.Identity.{floating_ip_for_attachment}
use connector.Mac.{get_port_mac}
use connector.Switch.{SwitchContext, World}
use connector.Status.Observe.Expected.{
  is_held, held-inner_ip, IsObservable, report, asked, InRange, is_held_lem, check_range-InRange,
  selected-asked,
}
use connector.Status.Observe.{
  StatsFailure, PortStatsOutput, reads_ready, observe_port, and_port, observe_ports, check_range,
  selected, stats, port_not_attached, stats_unavailable,
}

-- The slot is attached and its counters are confirmed and readable.
record IsRead (s : SwitchContext) (w : World) (i : ℕ) : Type 0 where
  attached : is_slot_allocated (get_inner_ip w.slots i) ≡ true
  confirmed : reads_ready s (w.slots.items i) (w.slots.items i) ≡ true
  reads : get_stats w.stats i ≡ ok (w.stats.entries i)
  counted : (w.stats.entries i).generation ≢ 0

-- What the reads make of it.
abbrev read_report : SwitchContext → World → ℕ → PortStatsOutput
read_report s w i =
    let slot = w.slots.items i in
    record {
      port = u32 (i + 1);
      inner_ip = get_inner_ip w.slots i;
      floating_ip = floating_ip_for_attachment s.cfg.floating_ip_base i slot.generation;
      generation = slot.generation;
      port_mac = get_port_mac s.cfg.switch_mac s.cfg.port_mac i;
      counters = w.stats.entries i;
    }

get_stats_entries :
    (w : World) (i : ℕ) (st : SlotStats) → get_stats w.stats i ≡ ok st → st ≡ w.stats.entries i
unfolding get_stats
get_stats_entries w i st h = ground (arith, h)

-- The last test of an observation in which every read sees the same state.
abbrev moved : SwitchContext → World → ℕ → SlotStats → Bool
moved s w i st =
    st.generation == 0
    || not (st.generation == st.generation)
    || not (is_slot_allocated (get_inner_ip w.slots i))
    || not (reads_ready s (w.slots.items i) (w.slots.items i))
    || not (get_inner_ip w.slots i == get_inner_ip w.slots i)
    || not ((w.slots.items i).generation == (w.slots.items i).generation)

not_moved :
    (s : SwitchContext) (w : World) (i : ℕ) → IsRead s w i → moved s w i (w.stats.entries i) ≡ false
not_moved s w i o = ground (arith, o.attached, o.confirmed, o.counted)

observe_port_quiet :
    (s : SwitchContext) (w : World) (i : ℕ)
    → IsRead s w i
    → observe_port s (λ _. w) i ≡ ok (read_report s w i)
unfolding observe_port
observe_port_quiet s w i o = rw (o.reads, not_moved s w i o, o.attached, o.confirmed) refl

observe_port_sound :
    (s : SwitchContext) (w : World) (i : ℕ) (p : PortStatsOutput)
    → observe_port s (λ _. w) i ≡ ok p
    → IsRead s w i × (p ≡ read_report s w i)
unfolding observe_port
observe_port_sound s w i p h =
    let (attached, h1) = ensure-ok _ port_not_attached _ h in
    let (confirmed, h2) = ensure-ok _ stats_unavailable _ h1 in
    elim (Result-cases (get_stats w.stats i)) [
      | inr (e, fails) ↦ absurd (ground (arith, rw fails at h2))
      | inl (st, reads) ↦
          let same = get_stats_entries w i st reads in
          let (still, done) =
            refuse-ok (moved s w i st) stats_unavailable (ok _) (rw reads at h2) in
          (
            record {
              attached = attached;
              confirmed = confirmed;
              reads = reads ∙ ap ok same;
              counted = ground (arith, still, same);
            },
            ground (arith, done, same),
          )
    ]

observe_ports_quiet :
    (s : SwitchContext) (w : World) (k : ℕ) (is : List ℕ)
    → All (IsRead s w) is
    → observe_ports s (λ _ _. w) k is ≡ ok (map (read_report s w) is)
unfolding observe_ports
observe_ports_quiet s w k [] a = refl
observe_ports_quiet s w k (i ∷ is) (o, a) =
    rw (observe_port_quiet s w i o, observe_ports_quiet s w (k + 1) is a) refl

and_port-ok :
    (r : Result StatsFailure PortStatsOutput) (rest : Result StatsFailure (List PortStatsOutput))
    (ps : List PortStatsOutput)
    → and_port r rest ≡ ok ps
    → (q : PortStatsOutput) × (qs : List PortStatsOutput) × (r ≡ ok q)
      × (rest ≡ ok qs)
      × (ps ≡ q ∷ qs)
and_port-ok (err e) rest ps h = absurd (ground (arith, h))
and_port-ok (ok q) (err e) ps h = absurd (ground (arith, h))
and_port-ok (ok q) (ok qs) ps h = (q, qs, refl, refl, ground (arith, h))

observe_ports_sound :
    (s : SwitchContext) (w : World) (k : ℕ) (is : List ℕ) (ps : List PortStatsOutput)
    → observe_ports s (λ _ _. w) k is ≡ ok ps
    → All (IsRead s w) is × (ps ≡ map (read_report s w) is)
unfolding observe_ports
observe_ports_sound s w k [] ps h = (tt, ground (arith, h))
observe_ports_sound s w k (i ∷ is) ps h =
    let (q, qs, one, rest, e) = and_port-ok (observe_port s (λ _. w) i) _ ps h in
    let (o, same) = observe_port_sound s w i q one in
    let (a, all_same) = observe_ports_sound s w (k + 1) is qs rest in
    ((o, a), e ∙ ap (λ x. x ∷ qs) same ∙ ap (λ xs. read_report s w i ∷ xs) all_same)

IsRead-IsObservable :
    (s : SwitchContext) (w : World) (i : ℕ)
    → w.stats.num_ports < 4294967296
    → IsRead s w i
    → IsObservable s w i × (read_report s w i ≡ report s w i)
unfolding get_stats
IsRead-IsObservable s w i small o =
    let held : is_held w i ≡ true = sym (is_held_lem w i) ∙ o.attached in
    let in_counters : i < w.stats.num_ports = ground (arith, o.reads) in
    (
      record {
        held = held;
        featured = ground (arith, o.confirmed);
        up = ground (arith, o.confirmed);
        ready = ground (arith, o.confirmed);
        in_counters = in_counters;
        locked = ground (arith, o.reads);
        readable = ground (arith, o.reads);
        counted = o.counted;
      },
      rw (held-inner_ip w i held, wide i in_counters) refl,
    )
  where
    wide : (i : ℕ) → i < w.stats.num_ports → u32 (i + 1) ≡ i + 1
    wide i h = ground (arith, small)

IsObservable-IsRead : (s : SwitchContext) (w : World) (i : ℕ) → IsObservable s w i → IsRead s w i
unfolding get_stats
IsObservable-IsRead s w i o = record {
  attached = is_held_lem w i ∙ o.held;
  confirmed = ground (arith, o.featured, o.up, o.ready);
  reads = ground (arith, o.in_counters, o.locked, o.readable);
  counted = o.counted;
}

observed :
    (s : SwitchContext) (w : World) (is : List ℕ)
    → w.stats.num_ports < 4294967296
    → All (IsRead s w) is
    → All (IsObservable s w) is × (map (read_report s w) is ≡ map (report s w) is)
observed s w [] small a = (tt, refl)
observed s w (i ∷ is) small (o, a) =
    let (one, same) = IsRead-IsObservable s w i small o in
    let (all, all_same) = observed s w is small a in
    (
      (one, all),
      ap (λ x. x ∷ map (read_report s w) is) same ∙ ap (λ xs. report s w i ∷ xs) all_same,
    )

readable-All :
    (s : SwitchContext) (w : World) (is : List ℕ) → All (IsObservable s w) is → All (IsRead s w) is
readable-All s w [] a = tt
readable-All s w (i ∷ is) (o, a) = (IsObservable-IsRead s w i o, readable-All s w is a)

-- Stats of a switch that nothing changes succeeds exactly if the shared lock is taken, the switch is the
-- current one at the end, the port numbers are in range, and every slot asked for, or every held one where
-- no port is given, is held, confirmed and readable; it then reports for each of them, in order, its
-- holder's identity with its counters. The numbers of ports are 32 bits wide.
pub stats_quiet :
    (s : SwitchContext) (w : World) (locks verifies : Bool) (ports : List ℕ)
    (ps : List PortStatsOutput)
    → s.cfg.n_ports < 4294967296
    → w.stats.num_ports < 4294967296
    → (stats s (λ _. w) (λ _ _. w) locks verifies ports ≡ ok ps) ↔ (
        (locks ≡ true)
        × (verifies ≡ true)
        × InRange s.cfg.n_ports ports
        × All (IsObservable s w) (asked w s.cfg.n_ports ports)
        × (ps ≡ map (report s w) (asked w s.cfg.n_ports ports)))
unfolding stats
stats_quiet s w locks verifies ports ps few counted = (to, from)
  where
    to :
        stats s (λ _. w) (λ _ _. w) locks verifies ports ≡ ok ps
        → (locks ≡ true)
          × (verifies ≡ true)
          × InRange s.cfg.n_ports ports
          × All (IsObservable s w) (asked w s.cfg.n_ports ports)
          × (ps ≡ map (report s w) (asked w s.cfg.n_ports ports))
    to h =
        let (u, range, h1) = >>=-ok (check_range s.cfg.n_ports ports) _ h in
        let (locked, h2) = ensure-ok locks stats_unavailable _ h1 in
        let (out, reads, h3) =
          >>=-ok (observe_ports s (λ _ _. w) 0 (selected (λ _. w) s.cfg.n_ports ports)) _ h2 in
        let (current, h4) = ensure-ok verifies stats_unavailable _ h3 in
        let in_range = (check_range-InRange s.cfg.n_ports ports).0 range in
        let same = selected-asked w s.cfg.n_ports ports few in_range in
        let (a, e) =
          observe_ports_sound s w 0 (asked w s.cfg.n_ports ports) out (rw same at reads) in
        let (all, reported) = observed s w (asked w s.cfg.n_ports ports) counted a in
        (locked, current, in_range, all, ground (arith, h4) ∙ e ∙ reported)

    from :
        (locks ≡ true)
          × (verifies ≡ true)
          × InRange s.cfg.n_ports ports
          × All (IsObservable s w) (asked w s.cfg.n_ports ports)
          × (ps ≡ map (report s w) (asked w s.cfg.n_ports ports))
        → stats s (λ _. w) (λ _ _. w) locks verifies ports ≡ ok ps
    from (locked, current, in_range, a, e) =
        let reads = readable-All s w (asked w s.cfg.n_ports ports) a in
        rw
          (
            (check_range-InRange s.cfg.n_ports ports).1 in_range,
            locked,
            current,
            selected-asked w s.cfg.n_ports ports few in_range,
            observe_ports_quiet s w 0 (asked w s.cfg.n_ports ports) reads,
            e,
          )
          (ap ok (observed s w (asked w s.cfg.n_ports ports) counted reads).1)
