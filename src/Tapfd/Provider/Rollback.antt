-- ===== src/Tapfd/Provider/Rollback.antt =====
-- The ports behind a PREPARE (cmd/connector-ctl/tapfd_server.go).
use connector.Base.{
  ℕ, ◌+◌, ◌-◌, ◌<◌, ◌≡◌, refl, inl, inr, Bool, true, false, Result, ok, err, ◌==◌, Bytes, u32,
  arith, Bool-cases, ap, ◌∙◌, sym, Result-cases,
}
use mathlib.Core.Path.{subst}
use native.Mathlib.Decide.{ℕ_discrete}
use connector.Slots.{get_inner_ip}
use connector.Slots.Cas.{is_slot_allocated, is_slot_free_or_reserved}
use connector.Switch.{SwitchContext, World, Kernel, SwitchError}
use connector.Switch.Abi.{require_attachment_abi}
use connector.Attach.Options.{AttachOptions, AttachOutput, Prepared, port_kind_tap}
use connector.Attach.Validate.{check_attach, validate_attachment_addresses}
use connector.Attach.{attach, attach_output}
use connector.Attach.Outcome.{Attached, Undone, untouched, returned, attach-Attached, attach-Undone}
use connector.Attach.Success.{IsQuiet}
use connector.Detach.{detach, check_detach}
use connector.Detach.Quiet.{IsDetached, detach-IsDetached, detach_quiet}
use connector.Tapfd.Request.{Request}
use connector.Tapfd.Provider.{
  Parsers, PrepareReply, OptionsError, granted, lost, refused, rollback, answer_client,
  after_attach, with_options, handle_tapfd_prepare, prepare_attach_options, send_tapfd_ok, response,
}

addresses_allocated :
    (inner gateway mac : Bytes) (ip : ℕ)
    → validate_attachment_addresses inner gateway mac ≡ ok ip
    → is_slot_allocated ip ≡ true
unfolding validate_attachment_addresses
addresses_allocated inner gateway mac ip h = ground (arith, h)

check_attach_valid :
    (s : SwitchContext) (opts : AttachOptions) (p : Prepared)
    → check_attach s opts ≡ ok p
    → (is_slot_allocated p.inner_ip ≡ true) × (require_attachment_abi s ≡ ok tt)
unfolding check_attach
check_attach_valid s opts p h =
    elim (Result-cases
      (validate_attachment_addresses opts.inner_ip opts.transit_gateway_ip opts.transit_mac)) [
        | inr (e, refuses) ↦ absurd (ground (arith, h, refuses))
        | inl (ip, accepts) ↦
            let a =
              addresses_allocated opts.inner_ip opts.transit_gateway_ip opts.transit_mac ip
                accepts in
            (ground (arith, h, accepts, a), ground (arith, h, accepts))
      ]

-- The address of every port is as it was.
abbrev pub SameOwners : World → World → Type 0
SameOwners w v = (j : ℕ) → (v.slots.items j).inner_ip ≡ (w.slots.items j).inner_ip

Undone-SameOwners : (w v : World) → Undone w v → SameOwners w v
Undone-SameOwners w v (untouched e) j = rw e refl
Undone-SameOwners w v (returned slot was_free back) j = elim (ℕ_discrete j slot) [
  | yes e ↦ rw e (back.free ∙ sym was_free)
  | no ne ↦ ap (λ i. i.inner_ip) (back.same.others j ne)
]

-- Detaching what has just been attached.
rollback_restores :
    (k : Kernel) (s : SwitchContext) (opts : AttachOptions) (w v : World) (out : AttachOutput)
    → IsQuiet k
    → w.slots.num_slots ≡ s.cfg.n_ports
    → s.cfg.n_ports < 4294967296
    → Attached s opts w out v
    → (x : World) × (detach k s (rollback out) v ≡ (ok tt, x)) × SameOwners w x
unfolding check_detach attach_output get_inner_ip
rollback_restores k s opts w v out q n b a =
    let (allocated, abi) = check_attach_valid s opts a.prepared a.valid in
    let port : out.port ≡ a.slot + 1 = ap (λ o. o.port) a.output in
    let range : a.slot < s.cfg.n_ports =
      omega (arith, a.attached.range, a.attached.same.bound, n) in
    let slot : u32 (out.port - 1) ≡ a.slot = ground (arith, port, range, b) in
    let valid : check_detach s (rollback out) ≡ ok tt = ground (arith, abi, port, range, slot) in
    let taken : is_slot_free_or_reserved (get_inner_ip v.slots (u32 (out.port - 1))) ≡ false =
      rw slot (ground (arith, allocated, a.attached.owner, a.attached.range)) in
    let (x, done) = detach_quiet k s (rollback out) v q valid refl taken in
    let d : IsDetached a.slot v x =
      subst (λ i. IsDetached i v x) slot (detach-IsDetached k s (rollback out) v x q done) in
    (
      x,
      done,
      λ j. elim (ℕ_discrete j a.slot) [
        | yes e ↦ rw e (ap (λ i. i.inner_ip) d.item ∙ sym a.was_free)
        | no ne ↦ ap (λ i. i.inner_ip) (d.same.others j ne ∙ a.attached.same.others j ne)
      ],
    )

-- Whether the client has been told its port.
abbrev pub is_granted : PrepareReply → Bool
is_granted (granted _) = true
is_granted _ = false

answer_client-SameOwners :
    (k : Kernel) (s : SwitchContext) (w v : World) (out : AttachOutput) (r : PrepareReply)
    → (x : World) × (detach k s (rollback out) v ≡ (ok tt, x)) × SameOwners w x
    → is_granted (answer_client k s out r v).0 ≡ false
    → SameOwners w (answer_client k s out r v).1
answer_client-SameOwners k s w v out (granted line) d h = absurd (ground (arith, h))
answer_client-SameOwners k s w v out (refused c) (x, done, o) h = rw done o
answer_client-SameOwners k s w v out lost (x, done, o) h = rw done o

after_attach-SameOwners :
    (k : Kernel) (s : SwitchContext) (opts : AttachOptions) (written : Bool) (w : World)
    (r : Result SwitchError AttachOutput × World)
    → IsQuiet k
    → w.slots.num_slots ≡ s.cfg.n_ports
    → s.cfg.n_ports < 4294967296
    → attach k s opts w ≡ r
    → is_granted (after_attach k s written r).0 ≡ false
    → SameOwners w (after_attach k s written r).1
after_attach-SameOwners k s opts written w (err e, v) q n b eq h =
    Undone-SameOwners w v (attach-Undone k s opts w v e q eq)
after_attach-SameOwners k s opts written w (ok out, v) q n b eq h =
    let back = rollback_restores k s opts w v out q n b (attach-Attached k s opts w v out q eq) in
    elim (Bool-cases (out.mode == port_kind_tap)) [
      | inr other ↦ rw (other, back.1) back.2
      | inl tap ↦ rw tap (
          answer_client-SameOwners k s w v out (send_tapfd_ok written (response out)) back
            (rw tap at h))
    ]

-- When no other process interferes, a PREPARE whose client is not told a port, whether the request is
-- bad, the attachment fails, the port is no tap, or the answer cannot be built or is lost, leaves every port with the
-- owner that it had.
pub handle_tapfd_prepare-SameOwners :
    (ps : Parsers) (k : Kernel) (s : SwitchContext) (written : Bool) (req : Request) (w : World)
    → IsQuiet k
    → w.slots.num_slots ≡ s.cfg.n_ports
    → s.cfg.n_ports < 4294967296
    → is_granted (handle_tapfd_prepare ps k s written req w).0 ≡ false
    → SameOwners w (handle_tapfd_prepare ps k s written req w).1
unfolding handle_tapfd_prepare
handle_tapfd_prepare-SameOwners ps k s written req w q n b h =
    parsed (prepare_attach_options ps req) h
  where
    parsed :
        (o : Result OptionsError AttachOptions)
        → is_granted (with_options k s written o w).0 ≡ false
        → SameOwners w (with_options k s written o w).1
    parsed (err e) h = λ j. refl
    parsed (ok opts) h = after_attach-SameOwners k s opts written w (attach k s opts w) q n b refl h
