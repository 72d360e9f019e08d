-- ===== src/Status/Observe/Expected.antt =====
-- What Stats is to report of a switch that nothing changes (pkg/vswitch/status.go), told from the slots
-- and the counters alone.
use mathlib.Core.List.{append-nil, append_assoc}
use connector.Base.{
  ℕ, zero, suc, ◌+◌, ◌-◌, ◌%◌, ◌<◌, ◌≤◌, ◌≡◌, refl, sym, ap, ◌∙◌, ◌≢◌, ◌⊎◌, Bool, true, false, not,
  ◌&&◌, List, [], ◌∷◌, ◌++◌, ok, ltb, ◌==◌, if◌then◌else◌, u32, map, arith, All, ◌↔◌,
}
use connector.Slots.{get_inner_ip}
use connector.Slots.Cas.{is_slot_allocated}
use connector.Identity.{floating_ip_for_attachment}
use connector.Mac.{get_port_mac}
use connector.Switch.{SwitchContext, World}
use connector.Switch.Abi.{has_port_up}
use connector.Status.Observe.{PortStatsOutput, check_range, allocated_from, selected}

-- A sandbox holds the slot: its owner is an address, neither Free nor Reserved.
abbrev pub is_held : World → ℕ → Bool
is_held w i =
    let owner = (w.slots.items i).inner_ip in
    ltb i w.slots.num_slots && not (owner == 0) && not (owner == 4294967295)

-- A sandbox holds the slot, the switch has the counters' feature and the data plane has confirmed the
-- slot, and its counters are there, are read under their lock and have been reset for an attachment.
pub record IsObservable (s : SwitchContext) (w : World) (i : ℕ) : Type 0 where
  pub held : is_held w i ≡ true
  pub featured : s.has_geneve_opts ≡ true
  pub up : (has_port_up s.cfg ≡ false) ⊎ ((w.slots.items i).flags % 2 ≡ 1)
  pub ready : (w.slots.items i).stats_ready ≡ 1
  pub in_counters : i < w.stats.num_ports
  pub locked : w.stats.locked_reads ≡ true
  pub readable : w.stats.lookup_fails i ≡ false
  pub counted : (w.stats.entries i).generation ≢ 0

-- What is to be reported of a port: the holder's identity with its counters.
abbrev pub report : SwitchContext → World → ℕ → PortStatsOutput
report s w i =
    let slot = w.slots.items i in
    record {
      port = i + 1;
      inner_ip = slot.inner_ip;
      floating_ip = floating_ip_for_attachment s.cfg.floating_ip_base i slot.generation;
      generation = slot.generation;
      port_mac = get_port_mac s.cfg.switch_mac s.cfg.port_mac i;
      counters = w.stats.entries i;
    }

-- The slots below a number, in order, and those of a list that are held.
abbrev pub below : ℕ → List ℕ
below zero = []
below (suc n) = below n ++ n ∷ []

abbrev pub held_of : World → List ℕ → List ℕ
held_of w [] = []
held_of w (i ∷ is) = if is_held w i then i ∷ held_of w is else held_of w is

-- The slots to report: those behind the port numbers, or every held one where no port is given.
abbrev pub asked : World → ℕ → List ℕ → List ℕ
asked w n [] = held_of w (below n)
asked w n (p ∷ ps) = map (λ q. q - 1) (p ∷ ps)

pub is_held_lem : (w : World) (i : ℕ) → is_slot_allocated (get_inner_ip w.slots i) ≡ is_held w i
unfolding get_inner_ip
is_held_lem w i = ground arith

pub held-inner_ip :
    (w : World) (i : ℕ) → is_held w i ≡ true → get_inner_ip w.slots i ≡ (w.slots.items i).inner_ip
unfolding get_inner_ip
held-inner_ip w i h = ground (arith, h)

held_of-append : (w : World) (is js : List ℕ) → held_of w (is ++ js) ≡ held_of w is ++ held_of w js
held_of-append w [] js = refl
held_of-append w (i ∷ is) js = ground (arith, held_of-append w is js)

held_at : (w : World) (a b : ℕ) → a ≡ b → held_of w (below a) ≡ held_of w (below b)
held_at w a b e = ap (λ k. held_of w (below k)) e

onto_first :
    (b : Bool) (i : ℕ) (before after : List ℕ)
    → before ++ (if b then i ∷ after else after) ≡ (before ++ (if b then i ∷ [] else [])) ++ after
onto_first true i before after = sym (append_assoc before (i ∷ []) after)
onto_first false i before after = ap (λ xs. xs ++ after) (sym (append-nil before))

held_of-below :
    (w : World) (i : ℕ)
    → held_of w (below (i + 1)) ≡ held_of w (below i) ++ (if is_held w i then i ∷ [] else [])
held_of-below w i = held_at w (i + 1) (suc i) (omega arith) ∙ held_of-append w (below i) (i ∷ [])

allocated_from-held_of :
    (w : World) (left i : ℕ)
    → held_of w (below i) ++ allocated_from (λ _. w) left i ≡ held_of w (below (i + left))
unfolding allocated_from
allocated_from-held_of w zero i =
    append-nil (held_of w (below i)) ∙ held_at w i (i + 0) (omega arith)
allocated_from-held_of w (suc left) i =
    let after = allocated_from (λ _. w) left (i + 1) in
    ap (λ b. held_of w (below i) ++ (if b then i ∷ after else after)) (is_held_lem w i)
    ∙ onto_first (is_held w i) i (held_of w (below i)) after
    ∙ ap (λ xs. xs ++ after) (sym (held_of-below w i))
    ∙ allocated_from-held_of w left (i + 1)
    ∙ held_at w (i + 1 + left) (i + suc left) (omega arith)

-- The port numbers that are accepted.
abbrev pub InRange : ℕ → List ℕ → Type 0
InRange n_ports ports = All (λ p. (0 < p) × (p ≤ n_ports)) ports

pub check_range-InRange :
    (n : ℕ) (ports : List ℕ) → (check_range n ports ≡ ok tt) ↔ (InRange n ports)
check_range-InRange n [] = ((λ _. tt), λ _. refl)
check_range-InRange n (p ∷ ps) = ground (arith, check_range-InRange n ps)

minus_one :
    (n : ℕ) (ports : List ℕ)
    → n < 4294967296
    → InRange n ports
    → map (λ q. u32 (q - 1)) ports ≡ map (λ q. q - 1) ports
minus_one n [] small h = refl
minus_one n (p ∷ ps) small (h, hs) = ground (arith, minus_one n ps small hs)

pub selected-asked :
    (w : World) (n : ℕ) (ports : List ℕ)
    → n < 4294967296
    → InRange n ports
    → selected (λ _. w) n ports ≡ asked w n ports
selected-asked w n [] small h = allocated_from-held_of w n 0 ∙ held_at w (0 + n) n (omega arith)
selected-asked w n (p ∷ ps) small h = minus_one n (p ∷ ps) small h
