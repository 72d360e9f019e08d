-- ===== src/Netlink.antt =====
-- The devices of a network namespace as pkg/netlink sees them. Names are byte strings; what the kernel
-- answers to a call, and what it picks where the caller leaves a value open, are arguments.
pub mod Places
pub mod Grows
pub mod Tap
pub mod Veth
pub mod Filter
use connector.Base.{
  ℕ, ◌<◌, ◌≡◌, refl, ap, Bool, true, false, Option, none, some, Bytes, bytes_eq, bytes_eq_refl, ltb,
  if◌then◌else◌, arith,
}

pub data LinkKind : Type 0 where
  tap veth dummy other : LinkKind

-- `up` is the administrative flag.
pub record LinkDevice : Type 0 where
  pub kind : LinkKind
  pub index : ℕ
  pub up : Bool
  pub mac : Bytes
  pub mtu : ℕ
  pub group : ℕ

abbrev pub Devices : Type 0
Devices = Bytes → Option LinkDevice

abbrev pub put : Bytes → LinkDevice → Devices → Devices
put name d ds n = if bytes_eq n name then some d else ds n

abbrev pub remove : Bytes → Devices → Devices
remove name ds n = if bytes_eq n name then none else ds n

abbrev pub exists : Bytes → Devices → Bool
exists name ds = elim (ds name) [ none ↦ false | some d ↦ true ]

abbrev pub change_link : Bytes → (LinkDevice → LinkDevice) → Devices → Devices
change_link name f ds = elim (ds name) [ none ↦ ds | some d ↦ put name (f d) ds ]

-- `LinkSetUp` and `LinkSetHardwareAddr` where they succeed.
abbrev pub raise_link : Bytes → Devices → Devices
raise_link name = change_link name λ d. record d { up = true }

abbrev pub set_mac : Bytes → Bytes → Devices → Devices
set_mac name mac = change_link name λ d. record d { mac = mac }

-- `if spec.MTU > 0 { la.MTU = spec.MTU }`, with what the kernel picks otherwise.
abbrev pub wanted : ℕ → ℕ → ℕ
wanted n picked = if ltb 0 n then n else picked

abbrev pub wanted_mac : Option Bytes → Bytes → Bytes
wanted_mac none picked = picked
wanted_mac (some mac) picked = mac
