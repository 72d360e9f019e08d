-- ===== src/Netlink/Tap.antt =====
-- Persistent taps: pkg/netlink/tap.go.
pub mod Clean
use connector.Base.{
  ℕ, Bool, true, false, not, ◌&&◌, ◌||◌, Option, none, some, Bytes, Result, ok, err, if◌then◌else◌,
}
use connector.Netlink.{
  LinkDevice, Devices, put, remove, exists, raise_link, set_mac, wanted, wanted_mac, tap,
}

-- `mac` is none where the kernel picks the address; 0 leaves the MTU or the group open.
pub record TapSpec : Type 0 where
  pub name : Bytes
  pub mtu : ℕ
  pub mac : Option Bytes
  pub group : ℕ

-- `forwards_mac`: whether the creation takes the address over.
pub record TapAnswers : Type 0 where
  pub add : Bool
  pub index : ℕ
  pub picked_mac : Bytes
  pub picked_mtu : ℕ
  pub forwards_mac : Bool
  pub lookup : Bool
  pub set_mac : Bool
  pub set_up : Bool
  pub delete : Bool

pub data TapError : Type 0 where
  create_failed lookup_failed mac_failed up_failed delete_failed : TapError

abbrev pub Tapping : Type 0
Tapping = Result TapError ℕ × Devices

abbrev tap_link : TapSpec → TapAnswers → LinkDevice
tap_link spec k = record {
  kind = tap;
  index = k.index;
  up = false;
  mac = if k.forwards_mac then wanted_mac spec.mac k.picked_mac else k.picked_mac;
  mtu = wanted spec.mtu k.picked_mtu;
  group = wanted spec.group 0;
}

-- `netlinkLinkDel`, whose error is dropped.
abbrev deleted : TapAnswers → TapSpec → TapError → Devices → Tapping
deleted k spec e ds = (err e, if k.delete then remove spec.name ds else ds)

abbrev bring_tap_up : TapSpec → TapAnswers → Devices → Tapping
bring_tap_up spec k ds =
    if k.set_up then (ok k.index, raise_link spec.name ds) else deleted k spec up_failed ds

abbrev tap_with_mac : TapSpec → TapAnswers → Option Bytes → Devices → Tapping
tap_with_mac spec k none ds = bring_tap_up spec k ds
tap_with_mac spec k (some mac) ds =
    if k.set_mac
    then bring_tap_up spec k (set_mac spec.name mac ds)
    else deleted k spec mac_failed ds

-- The kernel refuses a name that is taken.
unfoldable pub create_tap : TapSpec → TapAnswers → Devices → Tapping
create_tap spec k ds =
    if exists spec.name ds || not k.add
    then (err create_failed, ds)
    else if not k.lookup
    then deleted k spec lookup_failed (put spec.name (tap_link spec k) ds)
    else tap_with_mac spec k spec.mac (put spec.name (tap_link spec k) ds)

-- What deleting a link answers: `gone` where another process was first.
pub data DeleteAnswer : Type 0 where
  done gone fails : DeleteAnswer

abbrev delete_link : Bytes → DeleteAnswer → Devices → Result TapError (Unit {0}) × Devices
delete_link name done ds = (ok tt, remove name ds)
delete_link name gone ds = (ok tt, remove name ds)
delete_link name fails ds = (err delete_failed, ds)

abbrev delete_found :
    Bytes → DeleteAnswer → Option LinkDevice → Devices → Result TapError (Unit {0}) × Devices
delete_found name a none ds = (ok tt, ds)
delete_found name a (some d) ds = delete_link name a ds

unfoldable pub delete_tap :
    Bytes → (lookup : Bool) → DeleteAnswer → Devices → Result TapError (Unit {0}) × Devices
delete_tap name lookup a ds =
    if lookup then delete_found name a (ds name) ds else (err lookup_failed, ds)
