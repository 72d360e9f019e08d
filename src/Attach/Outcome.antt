-- ===== src/Attach/Outcome.antt =====
-- The outcomes of Attach when no other process interferes (pkg/vswitch/attach.go).
use connector.Base.{ℕ, ◌+◌, ◌≡◌, refl, Result, ok, err, ap}
use connector.Slots.{inner_ip_free}
use connector.Identity.{floating_ip_for_attachment}
use connector.Mac.{get_port_mac}
use connector.Switch.{World, Kernel, SwitchContext, SwitchError}
use connector.Switch.Act.{Post, Post-then, Post-ok, Post-err, Post-map, then_do}
use connector.Attach.{claim, complete, complete_claimed, attach, attach_output}
use connector.Attach.Options.{AttachOptions, AttachOutput, Prepared}
use connector.Attach.Validate.{check_attach}
use connector.Attach.Prepare.{suppress, prepare}
use connector.Attach.Claim.{IsClaimed, claim-Claims}
use connector.Attach.Frame.{prepare-Post}
use connector.Attach.Success.{
  IsQuiet, IsAttached, IsReturned, Held, HeldWith, rollback-IsReturned, writes-HeldWith,
  looks-HeldWith, suppress-Held, publish-IsAttached,
}

-- The slot of a success, what its output says (its port and the address, generation and MAC of the
-- attachment among it), and the attachment it leaves.
pub record Attached (s : SwitchContext) (opts : AttachOptions) (w0 : World) (out : AttachOutput)
    (w : World) : Type 0 where
  pub slot : ℕ
  pub prepared : Prepared
  pub valid : check_attach s opts ≡ ok prepared
  pub was_free : (w0.slots.items slot).inner_ip ≡ inner_ip_free
  pub output : out ≡ attach_output s opts prepared slot (w0.slots.items slot).mode
  pub same_port : out.port ≡ slot + 1
  pub same_ip : out.inner_ip ≡ opts.inner_ip
  pub same_generation : out.generation ≡ opts.generation
  pub same_floating :
      out.floating_ip ≡ floating_ip_for_attachment s.cfg.floating_ip_base slot opts.generation
  pub same_mac : out.port_mac ≡ get_port_mac s.cfg.switch_mac s.cfg.port_mac slot
  pub attached : IsAttached opts w0 slot prepared w

-- Either nothing happened, or a Free slot is Free and down again and no other slot changed.
pub data Undone (w0 : World) (w : World) : Type 0 where
  untouched : w ≡ w0 → Undone w0 w
  returned :
      (slot : ℕ)
      → (w0.slots.items slot).inner_ip ≡ inner_ip_free
      → IsReturned w0 slot w
      → Undone w0 w

complete-Post :
    (k : Kernel) (s : SwitchContext) (opts : AttachOptions) (p : Prepared) (slot kind : ℕ)
    (w0 w : World)
    → IsQuiet k
    → IsClaimed w0 p.inner_ip slot w
    → Post
        (λ out v. (out ≡ attach_output s opts p slot kind) × IsAttached opts w0 slot p v)
        (IsReturned w0 slot)
        (complete k s opts p slot kind w)
unfolding complete suppress
complete-Post k s opts p slot kind w0 w q c =
    Post-then (λ _. HeldWith opts w0 slot p) _ (IsReturned w0 slot)
      (prepare k s opts slot p (suppress opts slot w).1) _
      (prepare-Post k s opts slot p (Held opts w0 slot p.inner_ip) (HeldWith opts w0 slot p)
        (HeldWith opts w0 slot p) (IsReturned w0 slot) (λ at v h. rw (q at v) h)
        (λ at v h. rw (q at v) h) (rollback-IsReturned opts w0 slot p.inner_ip)
        (λ v h. rollback-IsReturned opts w0 slot p.inner_ip v h.held)
        (writes-HeldWith opts w0 slot p) (looks-HeldWith opts w0 slot p) (suppress opts slot w).1
        (suppress-Held opts w0 w slot p.inner_ip c))
      λ _ v h.
        Post-then (λ _. IsAttached opts w0 slot p) _ (IsReturned w0 slot) _ _
          (publish-IsAttached opts w0 slot p k v q h) (λ _ _ a. (refl, a))

Attached-of :
    (s : SwitchContext) (opts : AttachOptions) (w0 w : World) (out : AttachOutput) (slot : ℕ)
    (p : Prepared)
    → check_attach s opts ≡ ok p
    → (w0.slots.items slot).inner_ip ≡ inner_ip_free
    → out ≡ attach_output s opts p slot (w0.slots.items slot).mode
    → IsAttached opts w0 slot p w
    → Attached s opts w0 out w
unfolding attach_output
Attached-of s opts w0 w out slot p valid free e a = record {
  slot = slot;
  prepared = p;
  valid = valid;
  was_free = free;
  output = e;
  same_port = ap (λ o. o.port) e;
  same_ip = ap (λ o. o.inner_ip) e;
  same_generation = ap (λ o. o.generation) e;
  same_floating = ap (λ o. o.floating_ip) e;
  same_mac = ap (λ o. o.port_mac) e;
  attached = a;
}

claimed-Post :
    (k : Kernel) (s : SwitchContext) (opts : AttachOptions) (p : Prepared) (slot : ℕ) (w0 w : World)
    → IsQuiet k
    → check_attach s opts ≡ ok p
    → IsClaimed w0 p.inner_ip slot w
    → Post (Attached s opts w0) (Undone w0) (complete_claimed k s opts p slot w)
claimed-Post k s opts p slot w0 w q valid c =
    Post-map _ (Attached s opts w0) (IsReturned w0 slot) (Undone w0) _
      (λ out v (e, a).
        Attached-of s opts w0 v out slot p valid c.was_free
          (rw e (ap (λ i. attach_output s opts p slot i.mode) c.item)) a)
      (λ v h. returned slot c.was_free h)
      (complete-Post k s opts p slot (w.slots.items slot).mode w0 w q c)

attach-Post :
    (k : Kernel) (s : SwitchContext) (opts : AttachOptions) (w : World)
    → IsQuiet k
    → Post (Attached s opts w) (Undone w) (attach k s opts w)
unfolding attach
attach-Post k s opts w q = checked (check_attach s opts) refl
  where
    checked :
        (r : Result SwitchError Prepared)
        → check_attach s opts ≡ r
        → Post (Attached s opts w) (Undone w) (
            then_do
              (r, w)
              λ p. (λ v. then_do (claim s opts p.inner_ip v) (complete_claimed k s opts p)))
    checked (err x) e = untouched refl
    checked (ok p) e =
        Post-then (IsClaimed w p.inner_ip) (Attached s opts w) (Undone w) _ _
          (Post-map (IsClaimed w p.inner_ip) (IsClaimed w p.inner_ip) _ (Undone w) _ (λ _ _ c. c)
            (λ v u. untouched u) (claim-Claims s opts p.inner_ip w))
          (λ slot v c. claimed-Post k s opts p slot w v q e c)

-- When no other process interferes, a successful Attach has taken a Free slot and left in it the
-- address, the transit state, the options, the hint, the generation and the publication that its
-- request asks for, answered with that slot's port, and changed no other slot or option.
pub attach-Attached :
    (k : Kernel) (s : SwitchContext) (opts : AttachOptions) (w w' : World) (out : AttachOutput)
    → IsQuiet k
    → attach k s opts w ≡ (ok out, w')
    → Attached s opts w out w'
attach-Attached k s opts w w' out q h =
    Post-ok (Attached s opts w) (Undone w) _ h (attach-Post k s opts w q)

-- When no other process interferes, a failed Attach has changed no slot, or the only slot that it
-- changed was Free and is Free and down again.
pub attach-Undone :
    (k : Kernel) (s : SwitchContext) (opts : AttachOptions) (w w' : World) (x : SwitchError)
    → IsQuiet k
    → attach k s opts w ≡ (err x, w')
    → Undone w w'
attach-Undone k s opts w w' x q h =
    Post-err (Attached s opts w) (Undone w) _ h (attach-Post k s opts w q)
