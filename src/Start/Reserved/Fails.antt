-- ===== src/Start/Reserved/Fails.antt =====
-- Where a start may fail, what it has made is noted (pkg/vswitch/lifecycle.go).
use connector.Base.{
  ℕ, ◌≡◌, Bool, true, false, List, [], ◌∷◌, Result, ok, err, arith, Bool-cases, inl, inr, All,
}
use connector.Ip.{is_nil}
use connector.Start.Cleanup.{Resources, CleanupState}
use connector.Start.Reserved.Stages.{
  StartFailure, Run, Stage, continue_with, ◌>>◌, check, change, StartAnswers, caller_netns_failed,
  netns_failed,
}
use connector.Start.Reserved.{bring_up}
use connector.Start.Reserved.Steps.{
  validate_transit_device_early, load_bpf, create_dummy_device, write_configuration, init_slots,
  create_mgmt_planes, write_services, validate_mtu_slow_path,
}
use connector.Start.Reserved.Transit.{
  close_caller, after_move, move_device, configure_moved, configure_transit_device,
}
use connector.Start.Reserved.Keeps.{
  IsNoted, IsMoved, IsUndoable, Keeps, check-Keeps, validate_early-Keeps, init_slots-Keeps,
  write_services-Keeps, validate_mtu_slow_path-Keeps, configure_moved-Keeps, load_bpf-Keeps,
  create_dummy_device-Keeps, write_configuration-Keeps, create_planes-Keeps,
}

-- What holds of a failure.
abbrev pub OnError :
    (Resources → CleanupState → Type 0) → Result StartFailure (Unit {0}) × Run → Type 0
OnError Q (ok _, r) = Unit {0}
OnError Q (err _, r) = Q r.made r.cs

abbrev pub FailsWith : (P Q : Resources → CleanupState → Type 0) → Stage → Type 0
FailsWith P Q s = (r : Run) → P r.made r.cs → OnError Q (s r)

pub >>-FailsWith :
    (P Q : Resources → CleanupState → Type 0) (a b : Stage)
    → ((m : Resources) (cs : CleanupState) → P m cs → Q m cs)
    → Keeps P a
    → FailsWith P Q b
    → FailsWith P Q (a >> b)
>>-FailsWith P Q a b weaken ha hb r v = by_result (a r) (ha r v)
  where
    by_result :
        (q : Result StartFailure (Unit {0}) × Run)
        → P q.1.made q.1.cs
        → OnError Q (continue_with q b)
    by_result (ok _, q) w = hb q w
    by_result (err _, q) w = weaken q.made q.cs w

pub move_device-then :
    (k : StartAnswers) (b : Stage)
    → FailsWith IsMoved IsUndoable b
    → FailsWith IsNoted IsUndoable (move_device k >> b)
move_device-then k b hb r v = by_answers k.transit.caller_netns k.transit.move
  where
    by_answers :
        (opens moves : Bool)
        → OnError IsUndoable (
            ((check caller_netns_failed opens
                  >> (change (λ q. record q { cs = record q.cs { caller_ns = true } })
                      >> after_move moves))
                >> b)
              r)
    by_answers false moves = inl v
    by_answers true false = inl (ground arith)
    by_answers true true = hb _ (ground arith)

pub configure_transit_device-fails :
    (k : StartAnswers) (auto : Bool)
    → FailsWith IsNoted IsUndoable (configure_transit_device k auto)
configure_transit_device-fails k auto r v = elim (Bool-cases (is_nil r.cfg.transit_dev)) [
  | inl none_given ↦ rw none_given tt
  | inr given ↦ rw given (
      move_device-then k (configure_moved k auto >> close_caller)
        (>>-FailsWith IsMoved IsUndoable (configure_moved k auto) close_caller (λ m cs w. inr w)
          (configure_moved-Keeps IsMoved k auto) (λ q w. tt))
        r v)
]

-- A chain of steps, the last of which may end elsewhere.
abbrev pub chain : List Stage → Stage → Stage
chain [] last = last
chain (s ∷ ss) last = s >> chain ss last

pub chain-FailsWith :
    (ss : List Stage) (last : Stage)
    → All (Keeps IsNoted) ss
    → FailsWith IsNoted IsUndoable last
    → FailsWith IsNoted IsUndoable (chain ss last)
chain-FailsWith [] last h hl = hl
chain-FailsWith (s ∷ ss) last (h, hs) hl =
    >>-FailsWith IsNoted IsUndoable s (chain ss last) (λ m cs v. inl v) h
      (chain-FailsWith ss last hs hl)

-- The calls between the creation of a device and the note of it.
pub record NotesDevices (k : StartAnswers) : Type 0 where
  pub lookup : k.lookup_dummy ≡ true
  pub clsact : k.add_clsact ≡ true
  pub filter : k.add_block_filter ≡ true
  pub raised : (i : ℕ) → (k.plane i).raise_veth ≡ true
  pub ifindex : (i : ℕ) → (k.plane i).ifindex_read ≡ true

pub bring_up-fails :
    (k : StartAnswers) (auto : Bool)
    → NotesDevices k
    → FailsWith IsNoted IsUndoable (bring_up k auto)
unfolding bring_up
bring_up-fails k auto n =
    chain-FailsWith
      (check netns_failed k.switch_netns
        ∷ validate_transit_device_early k
        ∷ load_bpf k
        ∷ create_dummy_device k
        ∷ write_configuration k
        ∷ init_slots
        ∷ create_mgmt_planes k
        ∷ write_services k
        ∷ validate_mtu_slow_path k
        ∷ [])
      (configure_transit_device k auto)
      (
        check-Keeps IsNoted netns_failed k.switch_netns,
        (
          validate_early-Keeps IsNoted k,
          (
            load_bpf-Keeps k,
            (
              create_dummy_device-Keeps k n.lookup n.clsact n.filter,
              (
                write_configuration-Keeps k,
                (
                  init_slots-Keeps IsNoted,
                  (
                    (λ r v. create_planes-Keeps k 0 r.cfg.mgmt_extracts _ n.raised n.ifindex r v),
                    (write_services-Keeps IsNoted k, (validate_mtu_slow_path-Keeps IsNoted k, tt)),
                  ),
                ),
              ),
            ),
          ),
        ),
      )
      (configure_transit_device-fails k auto)
