-- ===== src/Provision/Device.antt =====
-- The device of one slot: provisionVethSlot and provisionTapSlot.
use connector.Base.{ℕ, Bool, not, Option, none, some, Result, ok, err, if◌then◌else◌}

pub data DeviceError : Type 0 where
  create_failed lookup_failed clsact_failed : DeviceError

-- `existing` is the index of a device with the slot's name, `created` that of a new one; `leaves` says
-- whether a creation that fails leaves the device behind, as that of veth pairs may.
pub record DeviceAnswers : Type 0 where
  pub existing : Option ℕ
  pub create : Bool
  pub leaves : Bool
  pub created : ℕ
  pub lookup : Bool
  pub clsact : Bool
  pub delete : Bool

-- The result, and the device with the slot's name afterwards.
abbrev pub DeviceOutcome : Type 0
DeviceOutcome = Result DeviceError ℕ × Option ℕ

-- A device that exists is used again; its filter is ensured.
abbrev pub reuse : DeviceAnswers → ℕ → DeviceOutcome
reuse a n = if a.clsact then (ok n, some n) else (err clsact_failed, some n)

abbrev pub new_veth : DeviceAnswers → DeviceOutcome
new_veth a =
    if not a.create
    then (err create_failed, if a.leaves then some a.created else none)
    else if not a.lookup
    then (err lookup_failed, some a.created)
    else if a.clsact
    then (ok a.created, some a.created)
    else (err clsact_failed, some a.created)

-- A tap without filter is deleted again.
abbrev pub new_tap : DeviceAnswers → DeviceOutcome
new_tap a =
    if not a.create
    then (err create_failed, if a.leaves then some a.created else none)
    else if a.clsact
    then (ok a.created, some a.created)
    else (err clsact_failed, if a.delete then none else some a.created)

abbrev pub by_existing : DeviceAnswers → Option ℕ → DeviceOutcome → DeviceOutcome
by_existing a (some n) fresh = reuse a n
by_existing a none fresh = fresh

unfoldable pub provision_veth_slot : DeviceAnswers → DeviceOutcome
provision_veth_slot a = by_existing a a.existing (new_veth a)

unfoldable pub provision_tap_slot : DeviceAnswers → DeviceOutcome
provision_tap_slot a = by_existing a a.existing (new_tap a)
