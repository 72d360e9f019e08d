-- ===== src/Detach/Ends.antt =====
-- Where a Detach ends (pkg/vswitch/attach.go), whatever other processes do meanwhile.
use connector.Base.{
  ℕ, ◌<◌, ◌≡◌, refl, ◌⊎◌, inl, inr, false, Result, ok, err, arith, Bool-cases, ◌==◌, ◌-◌, u32,
}
use connector.Slots.{inner_ip_free, inner_ip_reserved, get_inner_ip, update_slot_fields}
use connector.Slots.Cas.{is_slot_free_or_reserved, try_release}
use connector.Slots.Laws.{try_release_wins, try_release_loses}
use connector.Switch.{
  World, Kernel, SwitchContext, SwitchError, Point, move_device, recheck, commit,
}
use connector.Switch.Act.{Post, Post-then, Post-map, Post-ok, then_do}
use connector.Attach.Failure.{Takeover}
use connector.Detach.{
  DetachOptions, detach, detach_slot, check_detach, return_device, withdraw, given_up, release,
  finish,
}

-- Not held by a sandbox: Free and down, or Reserved by management.
abbrev pub IsVacated : ℕ → World → Type 0
IsVacated slot w =
    ((w.slots.items slot).inner_ip ≡ inner_ip_free) × ((w.slots.items slot).flags ≡ 0)
    ⊎ ((w.slots.items slot).inner_ip ≡ inner_ip_reserved)

-- Held by the owner `ip` or Reserved.
abbrev HeldBy : ℕ → ℕ → World → Type 0
HeldBy slot ip w =
    (slot < w.slots.num_slots)
    × (((w.slots.items slot).inner_ip ≡ ip) ⊎ ((w.slots.items slot).inner_ip ≡ inner_ip_reserved))

interfere-HeldBy :
    (k : Kernel) (slot ip : ℕ) (q : Point) (w : World)
    → Takeover k slot
    → HeldBy slot ip w
    → HeldBy slot ip (k.others q w)
interfere-HeldBy k slot ip q w t h = ground (arith, t.owner q w, t.bound q w)

withdraw-down :
    (slot : ℕ) (w : World)
    → slot < w.slots.num_slots
    → ((withdraw slot w).slots.items slot).flags ≡ 0
unfolding withdraw update_slot_fields
withdraw-down slot w r = ground arith

withdraw-HeldBy : (slot ip : ℕ) (w : World) → HeldBy slot ip w → HeldBy slot ip (withdraw slot w)
unfolding withdraw update_slot_fields
withdraw-HeldBy slot ip w h = ground arith

seized_by :
    (slot ip : ℕ) (w : World)
    → HeldBy slot ip w
    → (get_inner_ip w.slots slot == ip) ≡ false
    → (w.slots.items slot).inner_ip ≡ inner_ip_reserved
unfolding get_inner_ip
seized_by slot ip w h e = ground arith

given_up-reserved :
    (slot : ℕ) (w : World)
    → slot < w.slots.num_slots
    → (w.slots.items slot).inner_ip ≡ inner_ip_reserved
    → given_up slot w ≡ (ok tt, w)
unfolding get_inner_ip
given_up-reserved slot w r e = ground arith

freed-IsVacated :
    (slot : ℕ) (w v : World)
    → (w.slots.items slot).flags ≡ 0
    → v.slots.items slot ≡ record (w.slots.items slot) { inner_ip = inner_ip_free }
    → IsVacated slot v
freed-IsVacated slot w v d e = rw e (inl (refl, d))

release-IsVacated :
    (slot ip : ℕ) (w : World)
    → HeldBy slot ip w
    → (w.slots.items slot).flags ≡ 0
    → Post (λ _. IsVacated slot) (λ _. Unit {0}) (release slot ip w)
release-IsVacated slot ip w h d = elim (Bool-cases ((w.slots.items slot).inner_ip == ip)) [
  | inl e ↦
      let (won, item, _) = try_release_wins w.slots slot ip h.0 (ground arith) in
      rw won (freed-IsVacated slot w (record w { slots = (try_release w.slots slot ip).1 }) d item)
  | inr e ↦
      let seized : (w.slots.items slot).inner_ip ≡ inner_ip_reserved = ground arith in
      rw
        (
          try_release_loses w.slots slot ip (inr (ground arith)),
          given_up-reserved slot w h.0 seized,
        )
        (inr seized)
]

finish-IsVacated :
    (k : Kernel) (slot ip : ℕ) (w : World)
    → Takeover k slot
    → HeldBy slot ip w
    → Post (λ _. IsVacated slot) (λ _. Unit {0}) (finish k slot ip w)
unfolding finish
finish-IsVacated k slot ip w t h = elim (Bool-cases (get_inner_ip w.slots slot == ip)) [
  | inl e ↦
      let v = withdraw slot w in
      let down = withdraw-down slot w h.0 in
      rw e (
        release-IsVacated slot ip (k.others commit v)
          (interfere-HeldBy k slot ip commit v t (withdraw-HeldBy slot ip w h))
          (ground (arith, t.flags commit v)))
  | inr e ↦
      let seized = seized_by slot ip w h e in
      rw (e, given_up-reserved slot w h.0 seized) (inr seized)
]

lift-Post :
    {A : Type 0} (Q : World → Type 0) (r : Result SwitchError A) (w : World)
    → Q w
    → Post (λ _. Q) Q (r, w)
lift-Post Q (ok a) w h = h
lift-Post Q (err x) w h = h

detach_slot-IsVacated :
    (k : Kernel) (s : SwitchContext) (opts : DetachOptions) (slot : ℕ) (w : World)
    → Takeover k slot
    → Post (λ _. IsVacated slot) (λ _. Unit {0}) (detach_slot k s opts slot w)
unfolding detach_slot get_inner_ip
detach_slot-IsVacated k s opts slot w t =
    elim (Bool-cases (is_slot_free_or_reserved (get_inner_ip w.slots slot))) [
      | inl e ↦ rw e tt
      | inr e ↦
          let ip = get_inner_ip w.slots slot in
          let held : HeldBy slot ip w = ground arith in
          let v = k.others move_device w in
          rw e (
            Post-then (λ _. HeldBy slot ip) (λ _. IsVacated slot) (λ _. Unit {0}) _ _
              (Post-map (λ _. HeldBy slot ip) (λ _. HeldBy slot ip) (HeldBy slot ip) (λ _. Unit {0})
                _ (λ _ _ h. h) (λ _ _. tt)
                (lift-Post (HeldBy slot ip) (return_device k s opts slot (w.slots.items slot).mode)
                  v (interfere-HeldBy k slot ip move_device w t held)))
              λ _ u h.
                finish-IsVacated k slot ip (k.others recheck u) t
                  (interfere-HeldBy k slot ip recheck u t h))
    ]

-- Whatever takeovers happen meanwhile, after a Detach that succeeds no sandbox holds the slot: it is
-- Free and not published, or management has Reserved it and it still is.
pub detach-IsVacated :
    (k : Kernel) (s : SwitchContext) (opts : DetachOptions) (w w' : World)
    → Takeover k (u32 (opts.port - 1))
    → detach k s opts w ≡ (ok tt, w')
    → IsVacated (u32 (opts.port - 1)) w'
unfolding detach
detach-IsVacated k s opts w w' t h =
    Post-ok (λ _. IsVacated (u32 (opts.port - 1))) (λ _. Unit {0}) _ h
      (checked (check_detach s opts))
  where
    checked :
        (r : Result SwitchError (Unit {0}))
        → Post
            (λ _. IsVacated (u32 (opts.port - 1)))
            (λ _. Unit {0})
            (then_do (r, w) λ _. detach_slot k s opts (u32 (opts.port - 1)))
    checked (err x) = tt
    checked (ok u) = detach_slot-IsVacated k s opts (u32 (opts.port - 1)) w t
