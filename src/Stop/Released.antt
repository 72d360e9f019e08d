-- ===== src/Stop/Released.antt =====
-- A release that nobody disturbs releases every port, so that the stop goes on (pkg/vswitch/stop.go).
use connector.Base.{
  ℕ, ◌-◌, ◌≤◌, ◌<◌, ◌≡◌, refl, inl, inr, Bool, true, false, [], Result, ok, err, arith, Bool-cases,
  if◌then◌else◌, ap, ltb, ◌∙◌,
}
use connector.Slots.{SlotItem, MmappedSlots, inner_ip_reserved, get_inner_ip}
use connector.Slots.Cas.{is_slot_allocated}
use connector.Slots.Counts.{count_upto-zero}
use connector.Stop.{
  StopError, StopKernel, collect_port_interfaces, validate_all_released, count_ports_with_devices,
  count_allocated, reserve_free_slots, reserve_all_slots, is_free, not_reserved,
}
use connector.Stop.Passes.{marked, reserve_free_slots-IsMarked, reserve_all_slots-IsMarked}
use connector.Stop.Release.{
  ReleaseOutput, then_slots, delete_collected, release_forced, release_safely, release_ports, gated,
  counted,
}
use connector.Stop.Devices.{
  AllReleased, deleted-IsStripped, validate_from-ok, no_devices, deleted-AllReleased,
}

marked_free-reserved :
    (item : SlotItem)
    → is_slot_allocated item.inner_ip ≡ false
    → (marked is_free item).inner_ip ≡ inner_ip_reserved
marked_free-reserved item h = ground arith

marked_all-reserved : (item : SlotItem) → (marked not_reserved item).inner_ip ≡ inner_ip_reserved
marked_all-reserved item = ground arith

then_slots-ok :
    {A B : Type 0} (r : Result StopError A × MmappedSlots)
    (f : MmappedSlots → Result StopError B × MmappedSlots) (b : B) (m' : MmappedSlots)
    → then_slots r f ≡ (ok b, m')
    → (a : A) × (m : MmappedSlots) × (r ≡ (ok a, m)) × (f m ≡ (ok b, m'))
then_slots-ok (ok a, m) f b m' h = (a, m, refl, h)
then_slots-ok (err e, m) f b m' h = cc

release_forced-AllReleased :
    (k : StopKernel) (n : ℕ) (m m' : MmappedSlots)
    → n ≤ m.num_slots
    → release_forced k n [] [] m ≡ (ok tt, m')
    → AllReleased m' 0 n
unfolding release_forced
release_forced-AllReleased k n m m' b h =
    let (m1, runs, mark) = reserve_free_slots-IsMarked n m b in
    let h1 : then_slots (delete_collected k n m1)
          (λ v. delete_collected k n (reserve_all_slots n [] v).1)
        ≡ (ok tt, m') =
      rw runs at h in
    let (_, m2, deleted, h2) =
      then_slots-ok (delete_collected k n m1)
        (λ v. delete_collected k n (reserve_all_slots n [] v).1) tt m' h1 in
    let s = deleted-IsStripped k (collect_port_interfaces m1 n) m1 m2 deleted in
    let b2 : n ≤ m2.num_slots = rw (s.bound, mark.bound) b in
    let (m3, runs3, mark3) = reserve_all_slots-IsMarked n m2 b2 in
    deleted-AllReleased k n m3 m' (rw mark3.bound b2)
      (λ j q.
        ap (λ i. i.inner_ip) (mark3.within j (omega arith) q) ∙ marked_all-reserved (m2.items j))
      (rw runs3 at h2)

release_safely-AllReleased :
    (k : StopKernel) (n : ℕ) (m m' : MmappedSlots)
    → n ≤ m.num_slots
    → n < 4294967296
    → release_safely k n [] m ≡ (ok tt, m')
    → AllReleased m' 0 n
unfolding release_safely get_inner_ip
release_safely-AllReleased k n m m' b w h = elim (Bool-cases (ltb 0 (count_allocated m n))) [
  | inl used ↦ absurd (clash (rw used at h))
  | inr unused ↦
      let none : count_allocated m n ≡ 0 = ground arith in
      let (m1, runs, mark) = reserve_free_slots-IsMarked n m b in
      let h1 : then_slots (reserve_free_slots n [] m) (delete_collected k n) ≡ (ok tt, m') =
        rw unused at h in
      let h2 : delete_collected k n m1 ≡ (ok tt, m') = rw runs at h1 in
      deleted-AllReleased k n m1 m' (rw mark.bound b)
        (λ j q.
          ap (λ i. i.inner_ip) (mark.within j (omega arith) q)
          ∙ marked_free-reserved (m.items j)
              (unallocated m j (omega arith) (count_upto-zero is_slot_allocated m n j w none q)))
        h2
]
  where
    clash :
        {x : StopError} {v : MmappedSlots}
        → ◌≡◌ {A = Result StopError (Unit {0}) × MmappedSlots} (err x, v) (ok tt, m')
        → ⊥
    clash e = cc

    unallocated :
        (m : MmappedSlots) (j : ℕ)
        → j < m.num_slots
        → is_slot_allocated (get_inner_ip m j) ≡ false
        → is_slot_allocated (m.items j).inner_ip ≡ false
    unallocated m j r h = ground arith

counted-ok :
    (n before : ℕ) (r : Result StopError (Unit {0}) × MmappedSlots) (out : ReleaseOutput)
    (m' : MmappedSlots)
    → counted n before r ≡ (ok out, m')
    → (r ≡ (ok tt, m'))
      × (out.remaining ≡ count_ports_with_devices m' n)
      × (out.released ≡ before - count_ports_with_devices m' n)
counted-ok n before (ok u, m) out m' h = ground arith
counted-ok n before (err e, m) out m' h = cc

gated-ok :
    {A : Type 0} (lock_fails netns_fails : Bool) (m : MmappedSlots)
    (r : Result StopError A × MmappedSlots) (a : A) (m' : MmappedSlots)
    → gated lock_fails netns_fails m r ≡ (ok a, m')
    → r ≡ (ok a, m')
gated-ok true netns_fails m r a m' h = cc
gated-ok false true m r a m' h = cc
gated-ok false false m r a m' h = h

released_each :
    (k : StopKernel) (force : Bool) (n : ℕ) (m m' : MmappedSlots) (out : ReleaseOutput)
    → n ≤ m.num_slots
    → n < 4294967296
    → release_ports k force n [] [] m ≡ (ok out, m')
    → AllReleased m' 0 n
      × (out.remaining ≡ count_ports_with_devices m' n)
      × (out.released ≡ count_ports_with_devices m n - count_ports_with_devices m' n)
unfolding release_ports
released_each k force n m m' out b w h =
    let (r, remaining, released) =
      counted-ok n (count_ports_with_devices m n) _ out m'
        (gated-ok k.lock_fails k.netns_fails m _ out m' h) in
    (by_mode force r, remaining, released)
  where
    by_mode :
        (force : Bool)
        → (if force then release_forced k n [] [] m else release_safely k n [] m) ≡ (ok tt, m')
        → AllReleased m' 0 n
    by_mode true r = release_forced-AllReleased k n m m' b r
    by_mode false r = release_safely-AllReleased k n m m' b w r

-- When no other process interferes, a release that succeeds, in either mode, leaves every port
-- Reserved and without a device: the check of the stop that follows passes, nothing remains, and it
-- reports as released the ports that had a device.
pub release_ports-validates :
    (k : StopKernel) (force : Bool) (n : ℕ) (m m' : MmappedSlots) (out : ReleaseOutput)
    → n ≤ m.num_slots
    → n ≤ m'.num_slots
    → n < 4294967296
    → release_ports k force n [] [] m ≡ (ok out, m')
    → (validate_all_released m' n ≡ ok tt)
      × (out.remaining ≡ 0)
      × (out.released ≡ count_ports_with_devices m n)
unfolding validate_all_released
release_ports-validates k force n m m' out b b' w h =
    let (all, remaining, released) = released_each k force n m m' out b w h in
    let bare = no_devices m' n (λ j q. (all j (omega arith) q).1) in
    (
      validate_from-ok m' 0 n (omega arith) (λ j p q. all j p (omega arith)),
      remaining ∙ bare,
      omega (arith, released, bare),
    )
