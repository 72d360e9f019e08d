-- ===== src/Start/Cleanup.antt =====
-- What a start has made and its rollback: cleanupState of pkg/vswitch/lifecycle.go. The kernel's answers to
-- the calls that undo are arguments, true where a call succeeds.
use connector.Base.{ℕ, zero, suc, ◌+◌, Bool, false, ◌&&◌, ◌||◌, List, [], ◌∷◌, ◌==◌, if◌then◌else◌}

-- What exists outside the process: the pin directory with what is pinned in it, the loaded
-- objects, the dummy device, the management veths by their interface index, and whether the
-- transit device is in the switch's namespace.
pub record Resources : Type 0 where
  pub pin_dir : Bool
  pub objects_open : Bool
  pub dummy : Bool
  pub mgmt : List ℕ
  pub transit_moved : Bool

abbrev pub no_resources : Resources
no_resources = record {
  pin_dir = false;
  objects_open = false;
  dummy = false;
  mgmt = [];
  transit_moved = false;
}

-- `caller_ns` is `cs.callerNs != nil`. The name of the transit device is set with it.
pub record CleanupState : Type 0 where
  pub pin_dir_created : Bool
  pub bpf_loaded : Bool
  pub maps_pinned : Bool
  pub dummy_dev_created : Bool
  pub mgmt_ifindexes : List ℕ
  pub transit_moved : Bool
  pub caller_ns : Bool

-- A call that is retried has an answer for each attempt.
pub record UndoAnswers : Type 0 where
  pub move_back : ℕ → Bool
  pub delete_dummy : ℕ → Bool
  pub delete_mgmt : ℕ → ℕ → Bool
  pub unpin : Bool

abbrev pub cleanup_max_retries : ℕ
cleanup_max_retries = 3

-- The loop of `retryCleanup`: the rounds left and the number of the attempt.
abbrev pub retry_from : ℕ → ℕ → (ℕ → Bool) → Bool
retry_from zero i attempt = false
retry_from (suc left) i attempt = attempt i || retry_from left (i + 1) attempt

unfoldable pub retry_cleanup : (ℕ → Bool) → Bool
retry_cleanup attempt = retry_from cleanup_max_retries 0 attempt

abbrev pub remove_index : ℕ → List ℕ → List ℕ
remove_index i [] = []
remove_index i (j ∷ js) = if i == j then js else j ∷ remove_index i js

abbrev pub restore_transit : UndoAnswers → CleanupState → Resources → Resources
restore_transit u cs r =
    if cs.transit_moved && cs.caller_ns && retry_cleanup u.move_back
    then record r { transit_moved = false }
    else r

abbrev pub remove_dummy : UndoAnswers → CleanupState → Resources → Resources
remove_dummy u cs r =
    if cs.dummy_dev_created && retry_cleanup u.delete_dummy then record r { dummy = false } else r

abbrev pub remove_mgmt : UndoAnswers → List ℕ → Resources → Resources
remove_mgmt u [] r = r
remove_mgmt u (i ∷ is) r =
    remove_mgmt u is
      (if retry_cleanup (u.delete_mgmt i) then record r { mgmt = remove_index i r.mgmt } else r)

abbrev pub close_objects : CleanupState → Resources → Resources
close_objects cs r = if cs.bpf_loaded then record r { objects_open = false } else r

abbrev pub unpin_maps : UndoAnswers → CleanupState → Resources → Resources
unpin_maps u cs r =
    if (cs.maps_pinned || cs.pin_dir_created) && u.unpin then record r { pin_dir = false } else r

unfoldable pub cleanup : UndoAnswers → CleanupState → Resources → Resources
cleanup u cs r = unpin_maps u cs (
    close_objects cs (remove_mgmt u cs.mgmt_ifindexes (remove_dummy u cs (restore_transit u cs r))))
