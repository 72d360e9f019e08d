-- ===== src/Status.antt =====
-- pkg/vswitch/status.go: the health conditions of a switch. The links of its namespace are an argument, and
-- of each link what the checks read. The lists of device names are only printed: their lengths stand for them.
pub mod Walk
pub mod Devices
pub mod Gather
pub mod Ready
pub mod Observe
use connector.Base.{
  ℕ, zero, suc, ◌+◌, ◌-◌, Bool, true, false, not, ◌&&◌, ◌||◌, Option, none, some, List, [], ◌∷◌,
  ◌++◌, Result, ok, err, ltb, ◌==◌, if◌then◌else◌, length,
}
use connector.Slots.{MmappedSlots, SlotItem, inner_ip_reserved, get_inner_ip}
use connector.Slots.Counts.{count_allocated_slots, count_reserved_slots, count_free_slots}
use connector.Config.{max_mgmt_cidr_per_slot}
use connector.Status.Walk.{
  PortCheck, Checks, has_member, add_device, ext_devices, mgmt_devices, check_slot, checks_from,
  build_ports_to_check,
}

pub data ConditionStatus : Type 0 where
  is_true is_false is_unknown : ConditionStatus

pub data ConditionType : Type 0 where
  ready port_devices_ready mgmt_devices_ready transit_device_ready port_reserved : ConditionType

pub data Reason : Type 0 where
  no_reason devices_missing devices_down device_missing device_down tc_filter_missing
        namespace_not_found :
      Reason

-- Without its message.
pub record Condition : Type 0 where
  pub type : ConditionType
  pub status : ConditionStatus
  pub reason : Reason

-- What the checks read of a link: FlagUp, OperUp, and a filter on its ingress.
pub record Link : Type 0 where
  pub flag_up : Bool
  pub oper_up : Bool
  pub has_tc_filter : Bool

-- `nsIfindexMap`.
abbrev pub Links : Type 0
Links = ℕ → Option Link

-- How many devices are missing, down, without filter, and up.
pub record Tally : Type 0 where
  pub missing : ℕ
  pub down : ℕ
  pub missing_tc : ℕ
  pub up : ℕ

abbrev pub no_devices : Tally
no_devices = record { missing = 0; down = 0; missing_tc = 0; up = 0 }

abbrev pub tally_port : Option Link → Tally → Tally
tally_port none t = record t { missing = t.missing + 1 }
tally_port (some l) t =
    if l.flag_up then record t { up = t.up + 1 } else record t { down = t.down + 1 }

abbrev pub tally_index : Links → ℕ → Tally → Tally
tally_index links n t =
    if n == 0 then record t { missing = t.missing + 1 } else tally_port (links n) t

unfoldable pub tally_ports : Links → List PortCheck → Tally → Tally
tally_ports links [] t = t
tally_ports links (pc ∷ pcs) t = tally_ports links pcs (tally_index links pc.port_ifindex t)

abbrev pub condition : ConditionType → Reason → Condition
condition ty no_reason = record { type = ty; status = is_true; reason = no_reason }
condition ty namespace_not_found = record {
  type = ty;
  status = is_unknown;
  reason = namespace_not_found;
}
condition ty r = record { type = ty; status = is_false; reason = r }

abbrev pub port_reason : Bool → Tally → Reason
port_reason block_filter t =
    if not (t.missing == 0)
    then devices_missing
    else if not (t.down == 0)
    then devices_down
    else if not (t.up == 0) && not block_filter
    then tc_filter_missing
    else no_reason

unfoldable pub check_port_devices : List PortCheck → Links → Bool → Condition
unfolding tally_ports
check_port_devices [] links block_filter = condition port_devices_ready no_reason
check_port_devices (pc ∷ pcs) links block_filter =
    condition port_devices_ready
      (port_reason block_filter (tally_ports links (pc ∷ pcs) no_devices))

-- The loop of the management devices and of the transit devices: `is_up` is the test of the link.
abbrev pub tally_link : (Link → Bool) → Option Link → Tally → Tally
tally_link is_up none t = record t { missing = t.missing + 1 }
tally_link is_up (some l) t =
    if not (is_up l)
    then record t { down = t.down + 1 }
    else if l.has_tc_filter
    then t
    else record t { missing_tc = t.missing_tc + 1 }

unfoldable pub tally_links : (Link → Bool) → Links → List ℕ → Tally → Tally
tally_links is_up links [] t = t
tally_links is_up links (n ∷ ns) t = tally_links is_up links ns (tally_link is_up (links n) t)

abbrev pub link_reason : Reason → Reason → Tally → Reason
link_reason if_missing if_down t =
    if not (t.missing == 0)
    then if_missing
    else if not (t.down == 0)
    then if_down
    else if not (t.missing_tc == 0)
    then tc_filter_missing
    else no_reason

unfoldable pub check_mgmt_devices : List ℕ → Links → Condition
unfolding tally_links
check_mgmt_devices ns links =
    condition mgmt_devices_ready
      (link_reason devices_missing devices_down (tally_links (λ l. l.flag_up) links ns no_devices))

unfoldable pub check_transit_device : List ℕ → Links → Condition
unfolding tally_links
check_transit_device ns links =
    condition transit_device_ready
      (link_reason device_missing device_down (tally_links (λ l. l.oper_up) links ns no_devices))

abbrev pub status_true : ConditionStatus → Bool
status_true is_true = true
status_true _ = false

abbrev pub only_if : Bool → Condition → List Condition
only_if b c = if b then c ∷ [] else []

abbrev pub all_true : List Condition → Bool
all_true [] = true
all_true (c ∷ cs) = status_true c.status && all_true cs

-- The conditions that count for Ready, in their order.
unfoldable pub device_conditions : Checks → Links → Bool → List Condition
unfolding check_port_devices check_mgmt_devices check_transit_device
device_conditions c links block_filter =
    check_port_devices c.ports links block_filter
    ∷ (only_if (not (length c.mgmt == 0)) (check_mgmt_devices c.mgmt links)
        ++ only_if (not (length c.transit == 0)) (check_transit_device c.transit links))

abbrev pub summary : Bool → Condition
summary b = record { type = ready; status = if b then is_true else is_false; reason = no_reason }

-- `links` is none when the links cannot be listed; an interrupted dump counts as listed.
unfoldable pub check_conditions : ℕ → MmappedSlots → Option Links → Bool → Option (List Condition)
unfolding device_conditions build_ports_to_check
check_conditions n_ports m none block_filter = none
check_conditions n_ports m (some links) block_filter =
    let cs = device_conditions (build_ports_to_check n_ports m) links block_filter in
    some (
      summary (all_true cs)
      ∷ (cs
          ++ only_if (not (count_reserved_slots m == 0))
              (record { type = port_reserved; status = is_true; reason = no_reason })))

pub record StatusOutput : Type 0 where
  pub ports : ℕ
  pub ports_used : ℕ
  pub ports_available : ℕ
  pub ports_reserved : ℕ
  pub conditions : List Condition

-- What the switch namespace answers: no name is configured, it is not found, or it opens.
pub data Namespace : Type 0 where
  not_named not_found : Namespace
  opens : Option Links → Bool → Namespace

abbrev pub with_conditions : StatusOutput → Option (List Condition) → Option StatusOutput
with_conditions out none = none
with_conditions out (some cs) = some (record out { conditions = cs })

abbrev pub without_conditions : ℕ → MmappedSlots → StatusOutput
without_conditions n_ports m = record {
  ports = n_ports;
  ports_used = count_allocated_slots m;
  ports_available = count_free_slots m;
  ports_reserved = count_reserved_slots m;
  conditions = [];
}

unfoldable pub status : ℕ → MmappedSlots → Namespace → Option StatusOutput
unfolding check_conditions
status n_ports m not_named = some (without_conditions n_ports m)
status n_ports m not_found = some (record (without_conditions n_ports m) {
  conditions = condition ready namespace_not_found ∷ [];
})
status n_ports m (opens links block_filter) =
    with_conditions (without_conditions n_ports m) (check_conditions n_ports m links block_filter)

abbrev pub type_ready : ConditionType → Bool
type_ready ready = true
type_ready _ = false

-- The first Ready condition decides.
abbrev pub ready_in : List Condition → Bool
ready_in [] = false
ready_in (c ∷ cs) = if type_ready c.type then status_true c.status else ready_in cs

unfoldable pub is_ready : StatusOutput → Bool
is_ready out = ready_in out.conditions

-- The types and statuses that GetNotReadyReasons prints.
abbrev pub not_ready : List Condition → List (ConditionType × ConditionStatus)
not_ready [] = []
not_ready (c ∷ cs) =
    if not (type_ready c.type) && not (status_true c.status)
    then (c.type, c.status) ∷ not_ready cs
    else not_ready cs

unfoldable pub get_not_ready_reasons : StatusOutput → List (ConditionType × ConditionStatus)
get_not_ready_reasons out = not_ready out.conditions
