-- ===== src/Slots/Ownership.antt =====
-- What the compare-and-swap operations of pkg/internal/bpfmap/cas.go promise: each port is Free, Reserved or
-- held by one address, and a call answers and moves it by these rules alone.
use connector.Base.{ℕ, Bool, true, false, not, ◌&&◌, List, [], ◌∷◌, ◌==◌, if◌then◌else◌}
use connector.Slots.{MmappedSlots, inner_ip_free, inner_ip_reserved, init_slot_reserved}
use connector.Slots.Cas.{try_allocate, try_release, try_reserve, try_unreserve, try_update_inner_ip}
use connector.Slots.Contention.{
  Call, allocates, releases, reserves, updates, unreserves, inits, after,
}

pub data PortState : Type 0 where
  free reserved : PortState
  held : ℕ → PortState

-- How an InnerIP word is read, and how two states are compared.
unfoldable pub state_of : ℕ → PortState
state_of ip =
    if ip == inner_ip_free then free else if ip == inner_ip_reserved then reserved else held ip

abbrev pub same_state : PortState → PortState → Bool
same_state free free = true
same_state reserved reserved = true
same_state (held a) (held b) = a == b
same_state _ _ = false

abbrev pub is_held : PortState → Bool
is_held (held _) = true
is_held _ = false

abbrev pub moved_if : Bool → PortState → PortState → Bool × PortState
moved_if won new s = if won then (true, new) else (false, s)

-- The rules: a Free port can be claimed, a holder or Reserved port given up by whoever names its word, a port that
-- is not Reserved taken by management, a Reserved port freed, a Free port
-- reserved at the start, and a holder's address changed.
unfoldable pub rule : Call → PortState → Bool × PortState
unfolding state_of
rule (allocates i ip) s = moved_if (same_state s free) (state_of ip) s
rule (releases i ip) s = moved_if (same_state s (state_of ip)) free s
rule (reserves i ip) s =
    moved_if (not (same_state (state_of ip) reserved) && same_state s (state_of ip)) reserved s
rule (updates i new) s = moved_if (is_held s && is_held (state_of new)) (state_of new) s
rule (unreserves i) s = moved_if (same_state s reserved) free s
rule (inits i) s = moved_if (same_state s free) reserved s

abbrev pub slot_of : Call → ℕ
slot_of (allocates i ip) = i
slot_of (releases i ip) = i
slot_of (reserves i ip) = i
slot_of (updates i new) = i
slot_of (unreserves i) = i
slot_of (inits i) = i

-- Whether the call reports success.
abbrev pub answer : Call → MmappedSlots → Bool
answer (allocates i ip) m = (try_allocate m i ip).0
answer (releases i ip) m = (try_release m i ip).0
answer (reserves i ip) m = (try_reserve m i ip).0
answer (updates i new) m = (try_update_inner_ip m i (m.items i).inner_ip new).0
answer (unreserves i) m = (try_unreserve m i).0
answer (inits i) m = (init_slot_reserved m i).0

abbrev pub view : MmappedSlots → ℕ → PortState
view m j = state_of (m.items j).inner_ip

-- The answers of a sequence of calls.
pub answers : List Call → MmappedSlots → List Bool
answers [] m = []
answers (c ∷ cs) m = answer c m ∷ answers cs (after c m)

-- The same sequence by the rules: only the port that a call names is moved.
abbrev pub moved_by : Call → (ℕ → PortState) → ℕ → PortState
moved_by c v j = if j == slot_of c then (rule c (v j)).1 else v j

pub run_rules : List Call → (ℕ → PortState) → List Bool × (ℕ → PortState)
run_rules [] v = ([], v)
run_rules (c ∷ cs) v =
    let (bs, u) = run_rules cs (moved_by c v) in ((rule c (v (slot_of c))).0 ∷ bs, u)
