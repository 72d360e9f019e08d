-- ===== src/Netlink/Tap/Clean.antt =====
-- What creating and deleting a tap leaves in the namespace.
use connector.Base.{
  ℕ, ◌≡◌, refl, Bool, true, false, not, ◌||◌, Option, none, some, Bytes, bytes_eq, bytes_eq_refl,
  Result, ok, err, if◌then◌else◌, arith, Bool-cases, inl, inr,
}
use connector.Netlink.{
  LinkDevice, Devices, put, remove, exists, raise_link, set_mac, wanted, wanted_mac, tap,
}
use connector.Netlink.Places.{
  Placed, put-Placed, Placed-found, Placed-others, change_link-Placed, remove-Placed, exists-none,
}
use connector.Netlink.Tap.{
  lookup_failed, mac_failed, up_failed, done, gone, fails, TapSpec, TapAnswers, TapError, Tapping,
  tap_link, deleted, bring_tap_up, tap_with_mac, create_tap, DeleteAnswer, delete_found, delete_tap,
}

-- The tap that was asked for, up.
pub record IsTap (spec : TapSpec) (k : TapAnswers) (n : ℕ) (ds : Devices) : Type 0 where
  pub device : LinkDevice
  pub found : ds spec.name ≡ some device
  pub kind : device.kind ≡ tap
  pub index : device.index ≡ n
  pub up : device.up ≡ true
  pub mac : device.mac ≡ wanted_mac spec.mac k.picked_mac
  pub mtu : device.mtu ≡ wanted spec.mtu k.picked_mtu

-- No other device changes. The tap is there, or an error left nothing of it.
abbrev pub Clean : TapSpec → TapAnswers → Devices → Tapping → Type 0
Clean spec k ds (ok n, es) =
    IsTap spec k n es
    × (ds spec.name ≡ none)
    × ((m : Bytes) → bytes_eq m spec.name ≡ false → es m ≡ ds m)
Clean spec k ds (err e, es) = (m : Bytes) → es m ≡ ds m

deleted-Clean :
    (spec : TapSpec) (k : TapAnswers) (e : TapError) (d : LinkDevice) (ds es : Devices)
    → k.delete ≡ true
    → ds spec.name ≡ none
    → Placed spec.name d ds es
    → Clean spec k ds (deleted k spec e es)
deleted-Clean spec k e d ds es deletes fresh p =
    rw deletes (remove-Placed spec.name d ds es fresh p)

-- The device as it is before it is brought up.
record Wanted (spec : TapSpec) (k : TapAnswers) (d : LinkDevice) : Type 0 where
  pub kind : d.kind ≡ tap
  pub index : d.index ≡ k.index
  pub mac : d.mac ≡ wanted_mac spec.mac k.picked_mac
  pub mtu : d.mtu ≡ wanted spec.mtu k.picked_mtu

bring_tap_up-Clean :
    (spec : TapSpec) (k : TapAnswers) (d : LinkDevice) (ds es : Devices)
    → k.delete ≡ true
    → ds spec.name ≡ none
    → Placed spec.name d ds es
    → Wanted spec k d
    → Clean spec k ds (bring_tap_up spec k es)
bring_tap_up-Clean spec k d ds es deletes fresh p w = by_answer k.set_up
  where
    by_answer :
        (up : Bool)
        → Clean spec k ds
            (if up then (ok k.index, raise_link spec.name es) else deleted k spec up_failed es)
    by_answer false = deleted-Clean spec k up_failed d ds es deletes fresh p
    by_answer true =
        let q = change_link-Placed spec.name (λ d. record d { up = true }) d ds es p in
        (
          record {
            device = record d { up = true };
            found = Placed-found spec.name (record d { up = true }) ds (raise_link spec.name es) q;
            kind = w.kind;
            index = w.index;
            up = refl;
            mac = w.mac;
            mtu = w.mtu;
          },
          fresh,
          Placed-others spec.name (record d { up = true }) ds (raise_link spec.name es) q,
        )

tap_with_mac-Clean :
    (spec : TapSpec) (k : TapAnswers) (ds : Devices) (m : Option Bytes)
    → k.delete ≡ true
    → ds spec.name ≡ none
    → spec.mac ≡ m
    → Clean spec k ds (tap_with_mac spec k m (put spec.name (tap_link spec k) ds))
tap_with_mac-Clean spec k ds none deletes fresh none_given =
    bring_tap_up-Clean spec k (tap_link spec k) ds _ deletes fresh
      (put-Placed spec.name (tap_link spec k) ds)
      (record { kind = refl; index = refl; mac = ground (arith, none_given); mtu = refl })
tap_with_mac-Clean spec k ds (some mac) deletes fresh given = by_answer k.set_mac
  where
    by_answer :
        (sets : Bool)
        → Clean spec k ds (
            if sets
            then bring_tap_up spec k (set_mac spec.name mac (put spec.name (tap_link spec k) ds))
            else deleted k spec mac_failed (put spec.name (tap_link spec k) ds))
    by_answer false =
        deleted-Clean spec k mac_failed (tap_link spec k) ds _ deletes fresh
          (put-Placed spec.name (tap_link spec k) ds)
    by_answer true =
        bring_tap_up-Clean spec k (record (tap_link spec k) { mac = mac }) ds _ deletes fresh
          (change_link-Placed spec.name (λ d. record d { mac = mac }) (tap_link spec k) ds _
            (put-Placed spec.name (tap_link spec k) ds))
          (record { kind = refl; index = refl; mac = ground (arith, given); mtu = refl })

-- Where the kernel deletes what it is asked to, a tap is made whole, up and with its address, or the
-- devices are as before; no other device changes.
pub create_tap-Clean :
    (spec : TapSpec) (k : TapAnswers) (ds : Devices)
    → k.delete ≡ true
    → Clean spec k ds (create_tap spec k ds)
unfolding create_tap
create_tap-Clean spec k ds deletes = elim (Bool-cases (exists spec.name ds || not k.add)) [
  | inl refused ↦ rw refused (λ m. refl)
  | inr goes ↦
      let fresh = exists-none spec.name ds (ground (arith, goes)) in
      rw goes (by_lookup k.lookup fresh)
]
  where
    by_lookup :
        (found : Bool)
        → ds spec.name ≡ none
        → Clean spec k ds (
            if not found
            then deleted k spec lookup_failed (put spec.name (tap_link spec k) ds)
            else tap_with_mac spec k spec.mac (put spec.name (tap_link spec k) ds))
    by_lookup true fresh = tap_with_mac-Clean spec k ds spec.mac deletes fresh refl
    by_lookup false fresh =
        deleted-Clean spec k lookup_failed (tap_link spec k) ds _ deletes fresh
          (put-Placed spec.name (tap_link spec k) ds)

-- Deleting a tap succeeds where it is gone behind it, and touches no other device.
abbrev pub Deleted : Bytes → Devices → Result TapError (Unit {0}) × Devices → Type 0
Deleted name ds (ok _, es) =
    (es name ≡ none) × ((m : Bytes) → bytes_eq m name ≡ false → es m ≡ ds m)
Deleted name ds (err e, es) = (m : Bytes) → es m ≡ ds m

removed-Deleted :
    (name : Bytes) (ds : Devices)
    → (remove name ds name ≡ none)
      × ((m : Bytes) → bytes_eq m name ≡ false → remove name ds m ≡ ds m)
removed-Deleted name ds = (rw (bytes_eq_refl name) refl, λ m ne. rw ne refl)

pub delete_tap-Deleted :
    (name : Bytes) (lookup : Bool) (a : DeleteAnswer) (ds : Devices)
    → Deleted name ds (delete_tap name lookup a ds)
unfolding delete_tap
delete_tap-Deleted name false a ds = λ m. refl
delete_tap-Deleted name true a ds = by_device (ds name) a refl
  where
    by_device :
        (o : Option LinkDevice) (a : DeleteAnswer)
        → ds name ≡ o
        → Deleted name ds (delete_found name a o ds)
    by_device none a h = (h, λ m ne. refl)
    by_device (some d) done h = removed-Deleted name ds
    by_device (some d) gone h = removed-Deleted name ds
    by_device (some d) fails h = λ m. refl
