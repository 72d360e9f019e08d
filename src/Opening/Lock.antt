-- ===== src/Opening/Lock.antt =====
-- The control lock on the pin directory and the check that an opened switch is the pinned one:
-- pkg/vswitch/flock.go. A context without maps is none; the kernel's answers are arguments.
pub mod Locked
use connector.Base.{
  ℕ, suc, ◌+◌, ◌-◌, Bool, true, false, not, ◌&&◌, Option, none, some, List, [], ◌∷◌, Result, ok,
  err, ◌==◌, if◌then◌else◌,
}
use connector.Bpf.{
  PinName, PinAnswer, opened, not_exist, failed, pin_slots_v2, pin_slots, Objects, open_map,
  close_map,
}

-- What opening the pin directory answers.
pub data DirAnswer : Type 0 where
  dir_opened dir_missing dir_failed : DirAnswer

-- `info` is what `Info` and then `ID` answer for a map: none where Info fails, no number where the
-- kernel gives no identifier.
pub record LockAnswers : Type 0 where
  pub bpffs : Bool
  pub directory : DirAnswer
  pub flock : Bool
  pub pins : PinName → PinAnswer
  pub opened_info : Option (Option ℕ)
  pub pinned_info : Option (Option ℕ)

pub data LockError : Type 0 where
  bpffs_failed switch_missing directory_failed flock_failed : LockError
  no_slots_map load_failed info_failed no_kernel_id switch_replaced : LockError
  stats_unavailable : LockError → LockError

-- What the process holds: open directory files, locks on them, and map objects.
pub record Process : Type 0 where
  pub files : ℕ
  pub locks : ℕ
  pub objects : Objects

abbrev pub Locking : Type 0
Locking = Result LockError (Unit {0}) × Process

-- `syscallFlock`, and the close of the file where it fails.
abbrev flock_file : Bool → Process → Locking
flock_file true p = (ok tt, record p { locks = suc p.locks })
flock_file false p = (err flock_failed, record p { files = p.files - 1 })

abbrev open_directory : LockAnswers → DirAnswer → Process → Locking
open_directory k dir_opened p = flock_file k.flock (record p { files = suc p.files })
open_directory k dir_missing p = (err switch_missing, p)
open_directory k dir_failed p = (err directory_failed, p)

unfoldable pub acquire_switch_lock : LockAnswers → Process → Locking
acquire_switch_lock k p = if k.bpffs then open_directory k k.directory p else (err bpffs_failed, p)

unfoldable pub release : Process → Process
release p = record p { locks = p.locks - 1; files = p.files - 1 }

abbrev same_id : Option ℕ → Option ℕ → Result LockError (Unit {0})
same_id none pinned = err no_kernel_id
same_id (some m) none = err no_kernel_id
same_id (some m) (some n) = if m == n then ok tt else err switch_replaced

abbrev compare_maps : Option (Option ℕ) → Option (Option ℕ) → Result LockError (Unit {0})
compare_maps none pinned = err info_failed
compare_maps (some m) none = err info_failed
compare_maps (some m) (some n) = same_id m n

-- The pinned map is compared, and closed again on every path.
abbrev compare_pinned : LockAnswers → PinAnswer → Process → Locking
compare_pinned k opened p = (
  compare_maps k.opened_info k.pinned_info,
  record p { objects = close_map p.objects.made (open_map p.objects) },
)
compare_pinned k not_exist p = (err load_failed, p)
compare_pinned k failed p = (err load_failed, p)

-- The slots map under its new name, and where that is missing under the old one.
abbrev current_pin : (PinName → PinAnswer) → PinAnswer
current_pin pins = elim (pins pin_slots_v2) [
  | opened ↦ opened
  | not_exist ↦ pins pin_slots
  | failed ↦ failed
]

unfoldable pub verify_current_switch : LockAnswers → Bool → Process → Locking
verify_current_switch k has_slots p =
    if has_slots then compare_pinned k (current_pin k.pins) p else (err no_slots_map, p)

-- The lock is released where the check fails.
abbrev verified : Locking → Locking
verified (ok _, p) = (ok tt, p)
verified (err e, p) = (err e, release p)

abbrev then_verify : LockAnswers → Bool → Locking → Locking
then_verify k has_slots (ok _, p) = verified (verify_current_switch k has_slots p)
then_verify k has_slots (err e, p) = (err e, p)

unfoldable pub acquire_current_switch_control_lock : LockAnswers → Bool → Process → Locking
acquire_current_switch_control_lock k has_slots p =
    then_verify k has_slots (acquire_switch_lock k p)

-- The lock of the statistics is shared and does not wait: `flock` answers for that mode.
abbrev unavailable : Locking → Locking
unavailable (ok _, p) = (ok tt, p)
unavailable (err e, p) = (err (stats_unavailable e), p)

unfoldable pub acquire_stats_lock : LockAnswers → Bool → Process → Locking
acquire_stats_lock k has_slots p = unavailable (then_verify k has_slots (acquire_switch_lock k p))
