-- ===== src/Slots/Contention.antt =====
-- Who owns a slot when many callers run pkg/internal/bpfmap/cas.go on it: the atomic calls as an
-- explicit sequence, in the order in which the processor executes them.
use connector.Base.{
  ℕ, ◌<◌, ◌≡◌, refl, ◌≢◌, inr, ◌∙◌, Bool, true, false, List, [], ◌∷◌, replicate, length, ap, sym,
}
use connector.Slots.{MmappedSlots, inner_ip_free, init_slot_reserved}
use connector.Slots.Cas.{try_allocate, try_release, try_reserve, try_unreserve, try_update_inner_ip}
use connector.Slots.Laws.{try_allocate_wins, try_allocate_loses}

pub data Call : Type 0 where
  allocates releases reserves updates : ℕ → ℕ → Call
  unreserves inits : ℕ → Call

-- The slots after a call; `updates i new` moves slot `i` from the address that it holds.
abbrev pub after : Call → MmappedSlots → MmappedSlots
after (allocates i ip) m = (try_allocate m i ip).1
after (releases i ip) m = (try_release m i ip).1
after (reserves i ip) m = (try_reserve m i ip).1
after (updates i new) m = (try_update_inner_ip m i (m.items i).inner_ip new).1
after (unreserves i) m = (try_unreserve m i).1
after (inits i) m = (init_slot_reserved m i).1

unfoldable pub run : List Call → MmappedSlots → MmappedSlots
run [] m = m
run (c ∷ cs) m = run cs (after c m)

-- Contenders for one slot, in the order in which their CAS instructions execute.
pub contend : MmappedSlots → ℕ → List ℕ → List Bool × MmappedSlots
contend m i [] = ([], m)
contend m i (ip ∷ ips) =
    let (won, m') = try_allocate m i ip in let (rest, n) = contend m' i ips in (won ∷ rest, n)

all_lose :
    (m : MmappedSlots) (i : ℕ) (ips : List ℕ)
    → (m.items i).inner_ip ≢ inner_ip_free
    → contend m i ips ≡ (replicate (length ips) false, m)
unfolding contend
all_lose m i [] h = refl
all_lose m i (ip ∷ ips) h = rw (try_allocate_loses m i ip (inr h)) (rw (all_lose m i ips h) refl)

-- Of any number of contenders for a Free slot in range, the first wins and every other loses, and
-- the slot holds the winner's address. (No sandbox has the address 0.0.0.0: it is refused before.)
pub contend_one_winner :
    (m : MmappedSlots) (i ip : ℕ) (ips : List ℕ)
    → i < m.num_slots
    → (m.items i).inner_ip ≡ inner_ip_free
    → ip ≢ inner_ip_free
    → ((contend m i (ip ∷ ips)).0 ≡ true ∷ replicate (length ips) false)
      × (((contend m i (ip ∷ ips)).1.items i).inner_ip ≡ ip)
unfolding contend
contend_one_winner m i ip ips h free nz =
    let (won, item, _) = try_allocate_wins m i ip h free in
    let e : ((try_allocate m i ip).1.items i).inner_ip ≡ ip = ap (λ s. s.inner_ip) item in
    let lost = all_lose (try_allocate m i ip).1 i ips (λ z. nz (sym e ∙ z)) in
    rw (lost, won) (refl, e)
