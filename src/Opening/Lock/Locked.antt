-- ===== src/Opening/Lock/Locked.antt =====
-- What the control lock promises to the operation that takes it.
use connector.Base.{
  sym, ℕ, suc, ◌≡◌, refl, ◌∙◌, ◌↔◌, Bool, true, false, Option, none, some, Result, ok, err, arith,
}
use connector.Bpf.{PinAnswer, opened, not_exist, failed}
use connector.Bpf.Balance.{Older}
use connector.Bpf.Closing.{close_map-open_map}
use connector.Opening.Lock.{
  compare_maps, verified, then_verify, LockAnswers, LockError, Process, Locking,
  acquire_switch_lock, release, compare_pinned, current_pin, verify_current_switch,
  acquire_current_switch_control_lock, dir_opened,
}

-- The lock can be taken: the filesystem is there, the directory opens and flock succeeds.
pub record CanLock (k : LockAnswers) : Type 0 where
  pub mounted : k.bpffs ≡ true
  pub directory : k.directory ≡ dir_opened
  pub locked : k.flock ≡ true

-- The map pinned under the switch's name is the one that the context opened.
pub record IsCurrent (k : LockAnswers) : Type 0 where
  pub pin : current_pin k.pins ≡ opened
  pub id : ℕ
  pub opened_id : k.opened_info ≡ some (some id)
  pub pinned_id : k.pinned_info ≡ some (some id)

-- One more lock with its file is held, or nothing more.
abbrev pub HeldLock : Process → Locking → Type 0
HeldLock p (ok _, q) =
    (q.locks ≡ suc p.locks) × (q.files ≡ suc p.files) × (q.objects.live ≡ p.objects.live)
HeldLock p (err e, q) =
    (q.locks ≡ p.locks) × (q.files ≡ p.files) × (q.objects.live ≡ p.objects.live)

abbrev accepts : Result LockError (Unit {0}) → Bool
accepts (ok _) = true
accepts (err e) = false

abbrev pub taken : Locking → Bool
taken l = accepts l.0

acquire_switch_lock-Held : (k : LockAnswers) (p : Process) → HeldLock p (acquire_switch_lock k p)
unfolding acquire_switch_lock
acquire_switch_lock-Held k p = ground arith

acquire_switch_lock-CanLock :
    (k : LockAnswers) (p : Process) → (taken (acquire_switch_lock k p) ≡ true) ↔ CanLock k
unfolding acquire_switch_lock
acquire_switch_lock-CanLock k p = (
  λ t. record {
    mounted = ground (arith, t);
    directory = ground (arith, t);
    locked = ground (arith, t);
  },
  λ c. ground (arith, c.mounted, c.directory, c.locked),
)

-- Both maps have an identifier, and the same one.
abbrev SameId : Option (Option ℕ) → Option (Option ℕ) → Type 0
SameId a b = (id : ℕ) × (a ≡ some (some id)) × (b ≡ some (some id))

compare_maps-SameId : (a b : Option (Option ℕ)) → (accepts (compare_maps a b) ≡ true) ↔ SameId a b
compare_maps-SameId none b = (λ h. cc, λ (id, h, g). cc)
compare_maps-SameId (some m) none = (λ h. cc, λ (id, h, g). cc)
compare_maps-SameId (some none) (some n) = (λ h. cc, λ (id, h, g). cc)
compare_maps-SameId (some (some m)) (some none) = (λ h. cc, λ (id, h, g). cc)
compare_maps-SameId (some (some m)) (some (some n)) =
    (λ h. (m, refl, ground (arith, h)), λ (id, h, g). ground (arith, h, g))

compare_pinned-IsCurrent :
    (k : LockAnswers) (a : PinAnswer) (p : Process)
    → (taken (compare_pinned k a p) ≡ true) ↔ ((a ≡ opened) × SameId k.opened_info k.pinned_info)
compare_pinned-IsCurrent k opened p =
    let (to, from) = compare_maps-SameId k.opened_info k.pinned_info in
    (λ h. (refl, to h), λ (_, h). from h)
compare_pinned-IsCurrent k not_exist p = (λ h. cc, λ (h, g). cc)
compare_pinned-IsCurrent k failed p = (λ h. cc, λ (h, g). cc)

compare_pinned-live :
    (k : LockAnswers) (a : PinAnswer) (p : Process)
    → Older p.objects.made p.objects.live
    → ((compare_pinned k a p).1.files ≡ p.files)
      × ((compare_pinned k a p).1.locks ≡ p.locks)
      × ((compare_pinned k a p).1.objects.live ≡ p.objects.live)
compare_pinned-live k opened p old = (refl, refl, close_map-open_map p.objects old)
compare_pinned-live k not_exist p old = (refl, refl, refl)
compare_pinned-live k failed p old = (refl, refl, refl)

verified-Held :
    (p q : Process) (l : Locking)
    → HeldLock p (ok tt, q)
    → (l.1.files ≡ q.files) × (l.1.locks ≡ q.locks) × (l.1.objects.live ≡ q.objects.live)
    → HeldLock p (verified l)
unfolding release
verified-Held p q (ok _, r) (locks, files, live) (f, l, o) = (l ∙ locks, f ∙ files, o ∙ live)
verified-Held p q (err e, r) (locks, files, live) (f, l, o) =
    (omega (arith, locks, l), omega (arith, files, f), o ∙ live)

taken-verified : (l : Locking) → taken (verified l) ≡ taken l
taken-verified (ok _, r) = refl
taken-verified (err e, r) = refl

-- Taking the lock of an opened switch.
then_verify_lem :
    (k : LockAnswers) (p : Process) (l : Locking)
    → HeldLock p l
    → (l.1.objects.made ≡ p.objects.made)
    → Older p.objects.made p.objects.live
    → HeldLock p (then_verify k true l)
      × ((taken (then_verify k true l) ≡ true)
          ↔ ((taken l ≡ true) × (current_pin k.pins ≡ opened) × SameId k.opened_info k.pinned_info))
unfolding verify_current_switch
then_verify_lem k p (err e, q) held made old = (held, (λ h. cc, λ (h, g, _). cc))
then_verify_lem k p (ok _, q) (locks, files, live) made old =
    let (to, from) = compare_pinned-IsCurrent k (current_pin k.pins) q in
    let l = compare_pinned k (current_pin k.pins) q in
    (
      verified-Held p q l (locks, files, live)
          (compare_pinned-live k (current_pin k.pins) q (rw (made, live) old)),
      (
        λ h. let (a, b) = to (sym (taken-verified l) ∙ h) in (refl, a, b),
        λ (_, a, b). taken-verified l ∙ from (a, b),
      ),
    )

acquire_switch_lock_made :
    (k : LockAnswers) (p : Process) → (acquire_switch_lock k p).1.objects.made ≡ p.objects.made
unfolding acquire_switch_lock
acquire_switch_lock_made k p = ground arith

-- For a context with a slots map, in a process whose open map objects were all made earlier: the lock is
-- held exactly where it could be taken and the pinned map is still the one that the context opened, and
-- otherwise the process holds what it held before.
pub acquire_current_switch_control_lock-Held :
    (k : LockAnswers) (p : Process)
    → Older p.objects.made p.objects.live
    → HeldLock p (acquire_current_switch_control_lock k true p)
      × ((taken (acquire_current_switch_control_lock k true p) ≡ true) ↔ (CanLock k × IsCurrent k))
unfolding acquire_current_switch_control_lock
acquire_current_switch_control_lock-Held k p old =
    let (held, (to, from)) =
      then_verify_lem k p (acquire_switch_lock k p) (acquire_switch_lock-Held k p)
        (acquire_switch_lock_made k p) old in
    let (can, could) = acquire_switch_lock-CanLock k p in
    (
      held,
      (
        λ h.
            let (t, pin, (id, o, n)) = to h in
            (can t, record { pin = pin; id = id; opened_id = o; pinned_id = n }),
        λ (c, i). from (could c, i.pin, (i.id, i.opened_id, i.pinned_id)),
      ),
    )
