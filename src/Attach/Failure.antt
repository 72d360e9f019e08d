-- ===== src/Attach/Failure.antt =====
-- A failed Attach (pkg/vswitch/attach.go) is closed, whatever administrative takeovers happen
-- while it prepares.
use connector.Base.{
  ℕ, ◌<◌, ◌≡◌, ◌≢◌, ◌⊎◌, inl, inr, Bool, true, false, ok, err, arith, ap, Bool-cases, ◌==◌,
}
use connector.Slots.{inner_ip_free, inner_ip_reserved, update_slot_fields, get_inner_ip}
use connector.Slots.Cas.{try_release}
use connector.Switch.{World, Kernel, SwitchContext, SwitchError, Point}
use connector.Switch.Act.{Post, Post-then, Post-ok, Post-err}
use connector.Attach.{claim, complete, attach}
use connector.Attach.Options.{AttachOptions, Prepared}
use connector.Attach.Validate.{check_attach}
use connector.Attach.Prepare.{suppress, prepare, rollback_claim, check_owner}
use connector.Attach.Publish.{publish, set_up}
use connector.Attach.Claim.{IsClaimed, claim-Claims, check_attach-ok}
use connector.Attach.Frame.{prepare-Post}

-- Other processes leave the slot to its owner, or reserve it; they may take its publication
-- away, and do not reopen it while the operation runs.
pub record Takeover (k : Kernel) (slot : ℕ) : Type 0 where
  pub owner :
      (p : Point) (w : World)
      → (((k.others p w).slots.items slot).inner_ip ≡ (w.slots.items slot).inner_ip)
        ⊎ (((k.others p w).slots.items slot).inner_ip ≡ inner_ip_reserved)
  pub flags :
      (p : Point) (w : World)
      → (((k.others p w).slots.items slot).flags ≡ (w.slots.items slot).flags)
        ⊎ (((k.others p w).slots.items slot).flags ≡ 0)
  pub bound : (p : Point) (w : World) → (k.others p w).slots.num_slots ≡ w.slots.num_slots

-- Claimed with the address `ip`, or taken over since; not published.
pub record IsDown (slot ip : ℕ) (w : World) : Type 0 where
  pub range : slot < w.slots.num_slots
  pub owner :
      ((w.slots.items slot).inner_ip ≡ ip) ⊎ ((w.slots.items slot).inner_ip ≡ inner_ip_reserved)
  pub down : (w.slots.items slot).flags ≡ 0

-- Free or Reserved, and not published.
pub record IsClosed (slot : ℕ) (w : World) : Type 0 where
  pub owner :
      ((w.slots.items slot).inner_ip ≡ inner_ip_free)
      ⊎ ((w.slots.items slot).inner_ip ≡ inner_ip_reserved)
  pub down : (w.slots.items slot).flags ≡ 0

interfere-IsDown :
    (k : Kernel) (slot ip : ℕ) (p : Point) (w : World)
    → Takeover k slot
    → IsDown slot ip w
    → IsDown slot ip (k.others p w)
interfere-IsDown k slot ip p w t d = ground (arith, t.owner p w, t.flags p w, t.bound p w)

rollback-IsClosed :
    (slot ip : ℕ) (w : World)
    → ip ≢ inner_ip_reserved
    → IsDown slot ip w
    → IsClosed slot (rollback_claim slot ip w)
unfolding rollback_claim try_release
rollback-IsClosed slot ip w ne d = ground arith

taken_over-IsClosed :
    (slot ip : ℕ) (w : World)
    → IsDown slot ip w
    → (get_inner_ip w.slots slot == ip) ≡ false
    → IsClosed slot w
unfolding get_inner_ip
taken_over-IsClosed slot ip w d other = ground arith

check_owner-Post :
    (slot ip : ℕ) (w : World)
    → IsDown slot ip w
    → Post (λ _. IsDown slot ip) (IsClosed slot) (check_owner slot ip w)
check_owner-Post slot ip w d = elim (Bool-cases (get_inner_ip w.slots slot == ip)) [
  | inl same ↦ rw same d
  | inr other ↦ rw other (taken_over-IsClosed slot ip w d other)
]

suppress-IsDown :
    (opts : AttachOptions) (slot ip : ℕ) (w : World)
    → slot < w.slots.num_slots
    → (w.slots.items slot).inner_ip ≡ ip
    → IsDown slot ip (suppress opts slot w).1
unfolding suppress update_slot_fields
suppress-IsDown opts slot ip w r e = record {
  range = ground arith;
  owner = inl (ground arith);
  down = ground arith;
}

set_up-Post :
    (b : Bool) (slot : ℕ) (C : World → Type 0) (w : World)
    → Post (λ _ _. Unit {0}) C (set_up b slot w)
set_up-Post true slot C w = tt
set_up-Post false slot C w = tt

publish-Post :
    (k : Kernel) (opts : AttachOptions) (p : Prepared) (slot : ℕ) (C : World → Type 0) (w : World)
    → Post (λ _ _. Unit {0}) C (publish k opts p slot w)
unfolding publish
publish-Post k opts p slot C w = set_up-Post opts.admin_down slot C _

-- Whatever part of the preparation fails, and whatever takeovers happen meanwhile, the slot that an
-- Attach claimed is afterwards Free or Reserved, and not published to the dataplane.
pub complete-IsClosed :
    (k : Kernel) (s : SwitchContext) (opts : AttachOptions) (p : Prepared) (slot kind : ℕ)
    (w w' : World) (x : SwitchError)
    → Takeover k slot
    → p.inner_ip ≢ inner_ip_reserved
    → slot < w.slots.num_slots
    → (w.slots.items slot).inner_ip ≡ p.inner_ip
    → complete k s opts p slot kind w ≡ (err x, w')
    → IsClosed slot w'
unfolding complete suppress
complete-IsClosed k s opts p slot kind w w' x t ne r e h =
    Post-err (λ _ _. Unit {0}) (IsClosed slot) _ h
      (Post-then (λ _. IsDown slot p.inner_ip) (λ _ _. Unit {0}) (IsClosed slot)
        (prepare k s opts slot p (suppress opts slot w).1) _
        (prepare-Post k s opts slot p (IsDown slot p.inner_ip) (IsDown slot p.inner_ip)
          (IsDown slot p.inner_ip) (IsClosed slot)
          (λ q v d. interfere-IsDown k slot p.inner_ip q v t d)
          (λ q v d. interfere-IsDown k slot p.inner_ip q v t d)
          (λ v d. rollback-IsClosed slot p.inner_ip v ne d)
          (λ v d. rollback-IsClosed slot p.inner_ip v ne d)
          (λ v d. record { range = d.range; owner = d.owner; down = d.down })
          (check_owner-Post slot p.inner_ip) (suppress opts slot w).1
          (suppress-IsDown opts slot p.inner_ip w r e))
        λ _ v d.
          Post-then (λ _ _. Unit {0}) (λ _ _. Unit {0}) (IsClosed slot) _ _
            (publish-Post k opts p slot (IsClosed slot) v) (λ _ _ _. tt))

-- The same of the whole operation, for the slot that it claimed.
pub attach-IsClosed :
    (k : Kernel) (s : SwitchContext) (opts : AttachOptions) (p : Prepared) (slot : ℕ)
    (w w1 w' : World) (x : SwitchError)
    → check_attach s opts ≡ ok p
    → claim s opts p.inner_ip w ≡ (ok slot, w1)
    → Takeover k slot
    → attach k s opts w ≡ (err x, w')
    → IsClosed slot w'
unfolding attach
attach-IsClosed k s opts p slot w w1 w' x valid won t h =
    let c =
      Post-ok (IsClaimed w p.inner_ip) (λ v. v ≡ w) _ won (claim-Claims s opts p.inner_ip w) in
    let (_, _, ne, _) = check_attach-ok s opts p valid in
    complete-IsClosed k s opts p slot (w1.slots.items slot).mode w1 w' x t ne
      (rw c.same.bound c.range) (ap (λ i. i.inner_ip) c.item) (rw (valid, won) at h)
