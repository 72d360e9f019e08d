-- ===== src/Detach/Quiet.antt =====
-- What Detach does when no other process interferes (pkg/vswitch/attach.go).
use connector.Base.{
  ℕ, ◌<◌, ◌≡◌, refl, inl, inr, true, false, Result, ok, err, arith, Bool-cases, ◌-◌, u32, sym, ap,
  ◌∙◌, ==_refl,
}
use connector.Slots.{MmappedSlots, inner_ip_free, get_inner_ip, update_slot_fields}
use connector.Slots.Cas.{is_slot_free_or_reserved, is_slot_allocated}
use connector.Slots.Laws.{SameBut, try_release_wins}
use connector.Switch.{World, Kernel, SwitchContext, SwitchError, move_device, recheck, commit}
use connector.Switch.Act.{Post, Post-ok, Post-err, then_do}
use connector.Attach.Success.{IsQuiet}
use connector.Slots.Cas.{try_release}
use connector.Detach.{
  DetachOptions, detach, detach_slot, check_detach, return_device, withdraw, finish,
}

-- The slot was allocated; it is Free, down and without hint, and nothing else changed.
pub record IsDetached (slot : ℕ) (w0 w : World) : Type 0 where
  pub range : slot < w0.slots.num_slots
  pub was_allocated : is_slot_allocated (w0.slots.items slot).inner_ip ≡ true
  pub item :
      w.slots.items slot
      ≡ record (w0.slots.items slot) { inner_ip = inner_ip_free; flags = 0; geneve_opts_len = 0 }
  pub same : SameBut slot w0.slots w.slots
  pub options : w.geneve_opts ≡ w0.geneve_opts
  pub stats : w.stats ≡ w0.stats

withdraw-item :
    (slot : ℕ) (w : World)
    → slot < w.slots.num_slots
    → ((withdraw slot w).slots.items slot
        ≡ record (w.slots.items slot) { flags = 0; geneve_opts_len = 0 })
      × SameBut slot w.slots (withdraw slot w).slots
unfolding withdraw update_slot_fields
withdraw-item slot w r =
    (ground arith, record { others = λ j ne. ground arith; bound = ground arith })

withdraw-keeps : (slot : ℕ) (w : World) → (withdraw slot w).geneve_opts ≡ w.geneve_opts
unfolding withdraw
withdraw-keeps slot w = refl

withdraw-stats : (slot : ℕ) (w : World) → (withdraw slot w).stats ≡ w.stats
unfolding withdraw
withdraw-stats slot w = refl

allocated_slot :
    (m : MmappedSlots) (slot : ℕ)
    → is_slot_free_or_reserved (get_inner_ip m slot) ≡ false
    → (slot < m.num_slots)
      × (is_slot_allocated (m.items slot).inner_ip ≡ true)
      × (get_inner_ip m slot ≡ (m.items slot).inner_ip)
unfolding get_inner_ip
allocated_slot m slot h = ground arith

finish-IsDetached :
    (k : Kernel) (slot : ℕ) (w : World)
    → IsQuiet k
    → slot < w.slots.num_slots
    → is_slot_allocated (w.slots.items slot).inner_ip ≡ true
    → get_inner_ip w.slots slot ≡ (w.slots.items slot).inner_ip
    → Post (λ _. IsDetached slot w) (λ v. v ≡ w) (finish k slot (get_inner_ip w.slots slot) w)
unfolding finish
finish-IsDetached k slot w q r a same_ip =
    let v = withdraw slot w in
    let ip = get_inner_ip w.slots slot in
    let (item, same) = withdraw-item slot w r in
    let (won, freed, after) =
      try_release_wins v.slots slot ip (rw same.bound r)
        (ap (λ i. i.inner_ip) item ∙ sym same_ip) in
    rw (==_refl ip, q commit v, won)
      (record {
        range = r;
        was_allocated = a;
        item = rw (freed, item) refl;
        same = record {
          others = λ j ne. after.others j ne ∙ same.others j ne;
          bound = after.bound ∙ same.bound;
        };
        options = withdraw-keeps slot w;
        stats = withdraw-stats slot w;
      })

detach_slot-IsDetached :
    (k : Kernel) (s : SwitchContext) (opts : DetachOptions) (slot : ℕ) (w : World)
    → IsQuiet k
    → Post (λ _. IsDetached slot w) (λ v. v ≡ w) (detach_slot k s opts slot w)
unfolding detach_slot
detach_slot-IsDetached k s opts slot w q =
    elim (Bool-cases (is_slot_free_or_reserved (get_inner_ip w.slots slot))) [
      | inl e ↦ rw e refl
      | inr e ↦
          let (r, a, same_ip) = allocated_slot w.slots slot e in
          rw (e, q move_device w)
            (returned r a same_ip (return_device k s opts slot (w.slots.items slot).mode))
    ]
  where
    returned :
        slot < w.slots.num_slots
        → is_slot_allocated (w.slots.items slot).inner_ip ≡ true
        → get_inner_ip w.slots slot ≡ (w.slots.items slot).inner_ip
        → (c : Result SwitchError (Unit {0}))
        → Post
            (λ _. IsDetached slot w)
            (λ v. v ≡ w)
            (then_do (c, w) (λ _ v. finish k slot (get_inner_ip w.slots slot) (k.others recheck v)))
    returned r a same_ip (err x) = refl
    returned r a same_ip (ok u) = rw (q recheck w) (finish-IsDetached k slot w q r a same_ip)

detach-Post :
    (k : Kernel) (s : SwitchContext) (opts : DetachOptions) (w : World)
    → IsQuiet k
    → Post (λ _. IsDetached (u32 (opts.port - 1)) w) (λ v. v ≡ w) (detach k s opts w)
unfolding detach
detach-Post k s opts w q = checked (check_detach s opts)
  where
    checked :
        (r : Result SwitchError (Unit {0}))
        → Post
            (λ _. IsDetached (u32 (opts.port - 1)) w)
            (λ v. v ≡ w)
            (then_do (r, w) λ _. detach_slot k s opts (u32 (opts.port - 1)))
    checked (err x) = refl
    checked (ok u) = detach_slot-IsDetached k s opts (u32 (opts.port - 1)) w q

-- When no other process interferes, a Detach that succeeds frees a slot that a sandbox held and
-- withdraws its publication and its hint; nothing else changes.
pub detach-IsDetached :
    (k : Kernel) (s : SwitchContext) (opts : DetachOptions) (w w' : World)
    → IsQuiet k
    → detach k s opts w ≡ (ok tt, w')
    → IsDetached (u32 (opts.port - 1)) w w'
detach-IsDetached k s opts w w' q h =
    Post-ok (λ _. IsDetached (u32 (opts.port - 1)) w) (λ v. v ≡ w) _ h (detach-Post k s opts w q)

-- When no other process interferes, a Detach that fails leaves the attachment as it is.
pub detach_refused :
    (k : Kernel) (s : SwitchContext) (opts : DetachOptions) (w w' : World) (x : SwitchError)
    → IsQuiet k
    → detach k s opts w ≡ (err x, w')
    → w' ≡ w
detach_refused k s opts w w' x q h =
    Post-err (λ _. IsDetached (u32 (opts.port - 1)) w) (λ v. v ≡ w) _ h (detach-Post k s opts w q)

finish_quiet :
    (k : Kernel) (slot : ℕ) (w : World)
    → IsQuiet k
    → slot < w.slots.num_slots
    → get_inner_ip w.slots slot ≡ (w.slots.items slot).inner_ip
    → (v : World) × (finish k slot (get_inner_ip w.slots slot) w ≡ (ok tt, v))
unfolding finish
finish_quiet k slot w q r same_ip =
    let v = withdraw slot w in
    let ip = get_inner_ip w.slots slot in
    let (item, same) = withdraw-item slot w r in
    let (won, _, _) =
      try_release_wins v.slots slot ip (rw same.bound r)
        (ap (λ i. i.inner_ip) item ∙ sym same_ip) in
    (record v { slots = (try_release v.slots slot ip).1 }, rw (==_refl ip, q commit v, won) refl)

return_device_skipped :
    (k : Kernel) (s : SwitchContext) (opts : DetachOptions) (slot kind : ℕ)
    → opts.skip_device ≡ true
    → return_device k s opts slot kind ≡ ok tt
unfolding return_device
return_device_skipped k s opts slot kind skip = ground (arith, skip)

-- When no other process interferes, a slot that is held is detached if its device stays where it is.
pub detach_quiet :
    (k : Kernel) (s : SwitchContext) (opts : DetachOptions) (w : World)
    → IsQuiet k
    → check_detach s opts ≡ ok tt
    → opts.skip_device ≡ true
    → is_slot_free_or_reserved (get_inner_ip w.slots (u32 (opts.port - 1))) ≡ false
    → (v : World) × (detach k s opts w ≡ (ok tt, v))
unfolding detach detach_slot
detach_quiet k s opts w q valid skip e =
    let slot = u32 (opts.port - 1) in
    let (r, _, same_ip) = allocated_slot w.slots slot e in
    let (v, done) = finish_quiet k slot w q r same_ip in
    let stays = return_device_skipped k s opts slot (w.slots.items slot).mode skip in
    (v, rw (valid, e, q move_device w, stays, q recheck w) done)
