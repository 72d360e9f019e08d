-- ===== src/Netlink/Grows.antt =====
-- Devices that stay: no name loses its device, and none that is up goes down.
use connector.Base.{
  ◌≡◌, refl, sym, ap, ◌∙◌, true, false, Option, none, some, Bytes, bytes_eq, bytes_eq_refl,
  bytes_eq_sound, arith, Bool-cases, inl, inr,
}
use connector.Netlink.{LinkDevice, Devices, put, raise_link, exists}
use connector.Netlink.Places.{exists-none}

pub record Stays (d e : LinkDevice) : Type 0 where
  pub index : e.index ≡ d.index
  pub mac : e.mac ≡ d.mac
  pub up : d.up ≡ true → e.up ≡ true

abbrev pub Grows : Devices → Devices → Type 0
Grows ds es =
    (m : Bytes) (d : LinkDevice) → ds m ≡ some d → (e : LinkDevice) × (es m ≡ some e) × Stays d e

pub Grows-refl : (ds : Devices) → Grows ds ds
Grows-refl ds m d h = (d, h, record { index = refl; mac = refl; up = λ u. u })

pub Grows-trans : (ds es fs : Devices) → Grows ds es → Grows es fs → Grows ds fs
Grows-trans ds es fs g h m d is =
    let (e, there, s) = g m d is in
    let (f, last, t) = h m e there in
    (f, last, record { index = t.index ∙ s.index; mac = t.mac ∙ s.mac; up = λ u. t.up (s.up u) })

pub put-Grows :
    (name : Bytes) (d : LinkDevice) (ds : Devices)
    → exists name ds ≡ false
    → Grows ds (put name d ds)
put-Grows name d ds fresh m e is = elim (Bool-cases (bytes_eq m name)) [
  | inl same ↦
      absurd_some (sym (exists-none name ds fresh) ∙ ap ds (sym (bytes_eq_sound m name same)) ∙ is)
  | inr ne ↦ rw ne (Grows-refl ds m e is)
]
  where
    absurd_some : {T : Type 0} → Path (Option LinkDevice) none (some e) → T
    absurd_some h = cc

pub raise_link-Grows : (name : Bytes) (ds : Devices) → Grows ds (raise_link name ds)
raise_link-Grows name ds m d is = elim (Bool-cases (bytes_eq m name)) [
  | inl same ↦
      let at_name = ap ds (sym (bytes_eq_sound m name same)) ∙ is in
      (
        record d { up = true },
        ground (arith, same, at_name),
        record { index = refl; mac = refl; up = λ u. refl },
      )
  | inr ne ↦ (d, ground (arith, ne, is), record { index = refl; mac = refl; up = λ u. u })
]

-- Raising a device that is there.
pub raise_link-up :
    (name : Bytes) (d : LinkDevice) (ds : Devices)
    → ds name ≡ some d
    → raise_link name ds name ≡ some (record d { up = true })
raise_link-up name d ds h = ground (arith, h, bytes_eq_refl name)
