-- ===== src/Start/Reserved/Undo.antt =====
-- The cleanup of a start removes what is noted (pkg/vswitch/lifecycle.go).
use connector.Base.{
  ℕ, ◌≡◌, refl, ap, ◌∙◌, true, false, List, [], ◌∷◌, ==_refl, arith, Bool-cases, inl, inr,
}
use connector.Start.Cleanup.{
  Resources, no_resources, CleanupState, UndoAnswers, retry_cleanup, remove_index, restore_transit,
  remove_dummy, remove_mgmt, close_objects, unpin_maps, cleanup,
}
use connector.Start.Reserved.{unmade}
use connector.Start.Reserved.Keeps.{IsUndoable}

-- Each retried call that undoes succeeds at one of its attempts.
pub record Undoes (u : UndoAnswers) : Type 0 where
  pub moves_back : retry_cleanup u.move_back ≡ true
  pub deletes_dummy : retry_cleanup u.delete_dummy ≡ true
  pub deletes_mgmt : (i : ℕ) → retry_cleanup (u.delete_mgmt i) ≡ true
  pub unpins : u.unpin ≡ true

pub restore_transit_lem :
    (u : UndoAnswers) (cs : CleanupState) (m : Resources)
    → retry_cleanup u.move_back ≡ true
    → IsUndoable m cs
    → restore_transit u cs m ≡ record m { transit_moved = false }
restore_transit_lem u cs m back (inl v) =
    rw v.move_unnoted (ap (λ b. record m { transit_moved = b }) v.in_place)
restore_transit_lem u cs m back (inr v) = rw (v.move_noted, v.caller_open, back) refl

pub remove_dummy_lem :
    (u : UndoAnswers) (cs : CleanupState) (m : Resources)
    → retry_cleanup u.delete_dummy ≡ true
    → m.dummy ≡ cs.dummy_dev_created
    → remove_dummy u cs m ≡ record m { dummy = false }
remove_dummy_lem u cs m deletes same = elim (Bool-cases cs.dummy_dev_created) [
  | inl made ↦ rw (made, deletes) refl
  | inr unmade ↦ rw unmade (ap (λ b. record m { dummy = b }) (same ∙ unmade))
]

pub remove_mgmt_lem :
    (u : UndoAnswers) (is : List ℕ) (m : Resources)
    → ((i : ℕ) → retry_cleanup (u.delete_mgmt i) ≡ true)
    → m.mgmt ≡ is
    → remove_mgmt u is m ≡ record m { mgmt = [] }
remove_mgmt_lem u [] m deletes same = ap (λ l. record m { mgmt = l }) same
remove_mgmt_lem u (i ∷ is) m deletes same = rw (deletes i) (
    remove_mgmt_lem u is (record m { mgmt = remove_index i m.mgmt }) deletes
      (ap (remove_index i) same ∙ rw (==_refl i) refl))

pub close_objects_lem :
    (cs : CleanupState) (m : Resources)
    → m.objects_open ≡ cs.bpf_loaded
    → close_objects cs m ≡ record m { objects_open = false }
close_objects_lem cs m same = elim (Bool-cases cs.bpf_loaded) [
  | inl loaded ↦ rw loaded refl
  | inr unloaded ↦ rw unloaded (ap (λ b. record m { objects_open = b }) (same ∙ unloaded))
]

pub unpin_maps_lem :
    (u : UndoAnswers) (cs : CleanupState) (m : Resources)
    → u.unpin ≡ true
    → cs.pin_dir_created ≡ true
    → unpin_maps u cs m ≡ record m { pin_dir = false }
unpin_maps_lem u cs m unpins made = rw (unpins, made) (ground arith)

-- The notes that both kinds of state share.
pub noted_pin_dir :
    (m : Resources) (cs : CleanupState) → IsUndoable m cs → cs.pin_dir_created ≡ true
noted_pin_dir m cs (inl v) = v.pin_dir
noted_pin_dir m cs (inr v) = v.pin_dir

pub noted_dummy :
    (m : Resources) (cs : CleanupState) → IsUndoable m cs → m.dummy ≡ cs.dummy_dev_created
noted_dummy m cs (inl v) = v.dummy
noted_dummy m cs (inr v) = v.dummy

pub noted_mgmt : (m : Resources) (cs : CleanupState) → IsUndoable m cs → m.mgmt ≡ cs.mgmt_ifindexes
noted_mgmt m cs (inl v) = v.mgmt
noted_mgmt m cs (inr v) = v.mgmt

pub noted_objects :
    (m : Resources) (cs : CleanupState) → IsUndoable m cs → m.objects_open ≡ cs.bpf_loaded
noted_objects m cs (inl v) = v.objects
noted_objects m cs (inr v) = v.objects

-- The cleanup removes all that is noted.
pub cleanup_empty :
    (u : UndoAnswers) (cs : CleanupState) (m : Resources)
    → Undoes u
    → IsUndoable m cs
    → cleanup u cs m ≡ no_resources
unfolding cleanup
cleanup_empty u cs m w v =
    ap
      (λ r.
        unpin_maps u cs (close_objects cs (remove_mgmt u cs.mgmt_ifindexes (remove_dummy u cs r))))
      (restore_transit_lem u cs m w.moves_back v)
    ∙ ap (λ r. unpin_maps u cs (close_objects cs (remove_mgmt u cs.mgmt_ifindexes r)))
        (remove_dummy_lem u cs _ w.deletes_dummy (noted_dummy m cs v))
    ∙ ap (λ r. unpin_maps u cs (close_objects cs r))
        (remove_mgmt_lem u cs.mgmt_ifindexes _ w.deletes_mgmt (noted_mgmt m cs v))
    ∙ ap (unpin_maps u cs) (close_objects_lem cs _ (noted_objects m cs v))
    ∙ unpin_maps_lem u cs _ w.unpins (noted_pin_dir m cs v)
