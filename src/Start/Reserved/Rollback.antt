-- ===== src/Start/Reserved/Rollback.antt =====
-- A start that fails leaves nothing behind (pkg/vswitch/lifecycle.go).
use connector.Base.{
  ◌≡◌, refl, sym, ap, ◌∙◌, Bool, true, false, Option, none, some, Result, ok, err, arith,
}
use connector.Slots.{MmappedSlots}
use connector.Switch.{SwitchConfig, SwitchMetadata}
use connector.Config.{Config, validate_reserved}
use connector.Config.Match.{MatchError}
use connector.Config.Services.{IpNet}
use connector.MgmtService.{NatMaps}
use connector.Start.Cleanup.{no_resources, UndoAnswers}
use connector.Start.Reserved.Stages.{StartFailure, Run, StartAnswers}
use connector.Start.Reserved.{
  bring_up, roll_back, begin, after_mkdir, after_validation, start_reserved, unmade, is_ok,
  match_stage, Mkdir, created, exists, failed,
}
use connector.Start.Reserved.Keeps.{IsUndoable}
use connector.Start.Reserved.Fails.{OnError, NotesDevices, bring_up-fails}
use connector.Start.Reserved.Undo.{Undoes, cleanup_empty}

roll_back_empty :
    (u : UndoAnswers) (q : Result StartFailure (Unit {0}) × Run) (e : StartFailure) (r : Run)
    → Undoes u
    → OnError IsUndoable q
    → roll_back u q ≡ (err e, r)
    → r.made ≡ no_resources
roll_back_empty u (ok _, q) e r w v h = cc
roll_back_empty u (err x, q) e r w v h =
    ap (λ (z : Result StartFailure (Unit {0}) × Run). z.1.made) (sym h)
    ∙ cleanup_empty u q.cs q.made w v

after_mkdir_empty :
    (k : StartAnswers) (auto : Bool) (opened : Option (SwitchConfig × SwitchMetadata))
    (mkdir : Mkdir) (c : Config) (addr : Option IpNet) (slots : MmappedSlots) (nat : NatMaps)
    (e : StartFailure) (r : Run)
    → NotesDevices k
    → Undoes k.undo
    → after_mkdir k auto true opened mkdir (begin c addr slots nat) ≡ (err e, r)
    → r.made ≡ no_resources
after_mkdir_empty k auto opened created c addr slots nat e r n w h =
    roll_back_empty k.undo (bring_up k auto (begin c addr slots nat)) e r w
      (bring_up-fails k auto n (begin c addr slots nat) (ground arith)) h
after_mkdir_empty k auto none exists c addr slots nat e r n w h =
    ap (λ (z : Result StartFailure (Unit {0}) × Run). z.1.made) (sym h)
after_mkdir_empty k auto (some (x, y)) exists c addr slots nat e r n w h =
    ap (λ (z : Result StartFailure (Unit {0}) × Run). z.1.made) (sym h)
    ∙ matched _ (unmade (begin c addr slots nat)) refl
  where
    matched :
        (m : Result MatchError (Unit {0})) (q : Run)
        → q.made ≡ no_resources
        → (match_stage m q).1.made ≡ no_resources
    matched (ok _) q v = v
    matched (err _) q v = v
after_mkdir_empty k auto opened failed c addr slots nat e r n w h =
    ap (λ (z : Result StartFailure (Unit {0}) × Run). z.1.made) (sym h)

-- A start that fails, at any step and for any reason, leaves nothing behind that it made: no pin
-- directory, no loaded objects, no dummy device, no management veth, and the transit device back in
-- the caller's namespace. The conditions: the lock is taken, the calls between the creation of a
-- device and the note of it do not fail (for a management pair, bringing its end up and reading its index),
-- and each call that undoes succeeds within its retries.
pub start_reserved_failed :
    (k : StartAnswers) (auto bpffs : Bool) (opened : Option (SwitchConfig × SwitchMetadata))
    (mkdir : Mkdir) (c : Config) (addr : Option IpNet) (slots : MmappedSlots) (nat : NatMaps)
    (e : StartFailure) (r : Run)
    → NotesDevices k
    → Undoes k.undo
    → start_reserved k auto bpffs true opened mkdir c addr slots nat ≡ (err e, r)
    → r.made ≡ no_resources
unfolding start_reserved
start_reserved_failed k auto bpffs opened mkdir c addr slots nat e r n w h =
    by_checks (is_ok (validate_reserved c).0) bpffs h
  where
    by_checks :
        (valid mounted : Bool)
        → after_validation k auto mounted true opened mkdir valid
            (begin (validate_reserved c).1 addr slots nat)
          ≡ (err e, r)
        → r.made ≡ no_resources
    by_checks false mounted h = ap (λ (z : Result StartFailure (Unit {0}) × Run). z.1.made) (sym h)
    by_checks true false h = ap (λ (z : Result StartFailure (Unit {0}) × Run). z.1.made) (sym h)
    by_checks true true h =
        after_mkdir_empty k auto opened mkdir (validate_reserved c).1 addr slots nat e r n w h
