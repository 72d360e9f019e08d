-- ===== src/Netlink/Places.antt =====
-- A device placed under its name, changed there, and removed again.
use connector.Base.{
  ◌≡◌, refl, sym, ap, ◌∙◌, true, false, Option, none, some, Bytes, bytes_eq, bytes_eq_refl,
  bytes_eq_sound, arith, Bool-cases, inl, inr,
}
use connector.Netlink.{LinkDevice, Devices, put, remove, change_link, exists}

-- `es` is `ds` with the device under the name.
abbrev pub Placed : Bytes → LinkDevice → Devices → Devices → Type 0
Placed name d ds es = (m : Bytes) → es m ≡ put name d ds m

pub put-Placed : (name : Bytes) (d : LinkDevice) (ds : Devices) → Placed name d ds (put name d ds)
put-Placed name d ds m = refl

pub Placed-found :
    (name : Bytes) (d : LinkDevice) (ds es : Devices) → Placed name d ds es → es name ≡ some d
Placed-found name d ds es p = p name ∙ rw (bytes_eq_refl name) refl

pub Placed-others :
    (name : Bytes) (d : LinkDevice) (ds es : Devices)
    → Placed name d ds es
    → (m : Bytes) → bytes_eq m name ≡ false
    → es m ≡ ds m
Placed-others name d ds es p m ne = p m ∙ rw ne refl

pub change_link-Placed :
    (name : Bytes) (f : LinkDevice → LinkDevice) (d : LinkDevice) (ds es : Devices)
    → Placed name d ds es
    → Placed name (f d) ds (change_link name f es)
change_link-Placed name f d ds es p m =
    let found = Placed-found name d ds es p in ground (arith, p m, found)

pub remove-Placed :
    (name : Bytes) (d : LinkDevice) (ds es : Devices)
    → ds name ≡ none
    → Placed name d ds es
    → (m : Bytes) → remove name es m ≡ ds m
remove-Placed name d ds es fresh p m = elim (Bool-cases (bytes_eq m name)) [
  | inl same ↦ rw same (sym fresh ∙ ap ds (sym (bytes_eq_sound m name same)))
  | inr ne ↦ rw ne (Placed-others name d ds es p m ne)
]

pub exists-none : (name : Bytes) (ds : Devices) → exists name ds ≡ false → ds name ≡ none
exists-none name ds h = ground (arith, h)

pub exists-some :
    (name : Bytes) (ds : Devices) → exists name ds ≡ true → (d : LinkDevice) × (ds name ≡ some d)
exists-some name ds h = by_device (ds name) refl
  where
    by_device : (o : Option LinkDevice) → ds name ≡ o → (d : LinkDevice) × (ds name ≡ some d)
    by_device (some d) is = (d, is)
    by_device none is = ground (arith, h, is)
