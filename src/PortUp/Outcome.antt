-- ===== src/PortUp/Outcome.antt =====
-- The outcomes of SetPortUp when no other process interferes (pkg/vswitch/port_up.go).
use connector.Base.{
  ℕ, ◌≡◌, refl, ◌≢◌, inl, inr, true, Result, ok, err, arith, Bool-cases, ◌==◌, ◌-◌, ◌%◌, u32,
}
use connector.Slots.{get_inner_ip}
use connector.Slots.Cas.{is_slot_allocated}
use connector.Switch.{World, Kernel, SwitchContext, SwitchError}
use connector.Switch.Act.{Post, Post-map, Post-ok, Post-err, then_do}
use connector.Attach.Options.{Prepared}
use connector.Attach.Success.{IsQuiet}
use connector.PortUp.{set_port_up, set_slot_up, commit_port_up}
use connector.PortUp.Validate.{PortUpOptions, check_port_up, check_port}
use connector.PortUp.Failure.{check_port_up-ok}
use connector.PortUp.Success.{IsRaised, commit-IsRaised}

-- A success of the operation: the request was valid, and the attachment is raised.
pub record Raised (s : SwitchContext) (opts : PortUpOptions) (w0 w : World) : Type 0 where
  pub prepared : Prepared
  pub valid : check_port_up s opts ≡ ok prepared
  pub raised : IsRaised opts prepared (u32 (opts.port - 1)) w0 w

set_slot_up-Raised :
    (k : Kernel) (s : SwitchContext) (opts : PortUpOptions) (w : World)
    → IsQuiet k
    → Post (λ _. Raised s opts w) (λ v. v ≡ w) (set_slot_up k s opts (u32 (opts.port - 1)) w)
unfolding set_slot_up
set_slot_up-Raised k s opts w q =
    elim (Bool-cases (is_slot_allocated (get_inner_ip w.slots slot))) [
      | inr e ↦ rw e refl
      | inl e ↦ rw e (elim (Bool-cases ((w.slots.items slot).flags % 2 == 1)) [
        | inl odd ↦ rw odd refl
        | inr even ↦ rw even (checked e (λ o. ground arith) (check_port_up s opts) refl)
      ])
    ]
  where
    slot : ℕ
    slot = u32 (opts.port - 1)

    checked :
        is_slot_allocated (get_inner_ip w.slots slot) ≡ true
        → (w.slots.items slot).flags % 2 ≢ 1
        → (r : Result SwitchError Prepared) → check_port_up s opts ≡ r
        → Post
            (λ _. Raised s opts w)
            (λ v. v ≡ w)
            (then_do (r, w) λ p. commit_port_up k s opts p slot (get_inner_ip w.slots slot))
    checked a d (err x) e = refl
    checked a d (ok p) e =
        let (_, not_free, not_reserved, _) = check_port_up-ok s opts p e in
        Post-map (λ _. IsRaised opts p slot w) (λ _. Raised s opts w) (λ v. v ≡ w) (λ v. v ≡ w)
          (commit_port_up k s opts p slot (get_inner_ip w.slots slot) w)
          (λ _ v r. record { prepared = p; valid = e; raised = r }) (λ v same. same)
          (commit-IsRaised opts p slot w k s q a d (ground (arith, not_free, not_reserved)))

set_port_up-Post :
    (k : Kernel) (s : SwitchContext) (opts : PortUpOptions) (w : World)
    → IsQuiet k
    → Post (λ _. Raised s opts w) (λ v. v ≡ w) (set_port_up k s opts w)
unfolding set_port_up
set_port_up-Post k s opts w q = checked (check_port s opts)
  where
    checked :
        (r : Result SwitchError (Unit {0}))
        → Post
            (λ _. Raised s opts w)
            (λ v. v ≡ w)
            (then_do (r, w) λ _. set_slot_up k s opts (u32 (opts.port - 1)))
    checked (err x) = refl
    checked (ok u) = set_slot_up-Raised k s opts w q

-- When no other process interferes, a SetPortUp that succeeds has raised an attachment that was
-- allocated and down: the new address and the whole requested transit state, options and hint are
-- in place, and its generation, device and statistics, and every other slot, are as before.
pub set_port_up-Raised :
    (k : Kernel) (s : SwitchContext) (opts : PortUpOptions) (w w' : World)
    → IsQuiet k
    → set_port_up k s opts w ≡ (ok tt, w')
    → Raised s opts w w'
set_port_up-Raised k s opts w w' q h =
    Post-ok (λ _. Raised s opts w) (λ v. v ≡ w) _ h (set_port_up-Post k s opts w q)

-- When no other process interferes, a SetPortUp that fails has changed nothing.
pub set_port_up_refused :
    (k : Kernel) (s : SwitchContext) (opts : PortUpOptions) (w w' : World) (x : SwitchError)
    → IsQuiet k
    → set_port_up k s opts w ≡ (err x, w')
    → w' ≡ w
set_port_up_refused k s opts w w' x q h =
    Post-err (λ _. Raised s opts w) (λ v. v ≡ w) _ h (set_port_up-Post k s opts w q)
