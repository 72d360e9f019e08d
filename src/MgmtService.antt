-- ===== src/MgmtService.antt =====
-- pkg/vswitch/mgmt_service.go: WriteMgmtServices, which fills the two NAT maps of the management services. The
-- maps are the kernel's: an update may fail, as `UpdateFailures` says for each key.
pub mod RoundTrip
use connector.Base.{
  ℕ, Bool, true, false, ◌&&◌, Option, none, some, List, [], ◌∷◌, ◌==◌, if◌then◌else◌,
}
use connector.Ip.{ip_to_uint32}
use connector.Config.Services.{MgmtService}

pub record SvcKey : Type 0 where
  pub ip : ℕ
  pub port : ℕ
  pub proto : ℕ

pub record SvcVal : Type 0 where
  pub ip : ℕ
  pub port : ℕ

pub record SvcEntry : Type 0 where
  pub key : SvcKey
  pub value : SvcVal

pub record NatMaps : Type 0 where
  pub fwd : List SvcEntry
  pub rev : List SvcEntry

pub record UpdateFailures : Type 0 where
  pub fwd_fails : SvcKey → Bool
  pub rev_fails : SvcKey → Bool

pub data SvcError : Type 0 where
  write_fwd write_rev : SvcError

-- How a write ends; a failure leaves what was written before it.
pub data Written : Type 0 where
  done : NatMaps → Written
  stopped : SvcError → NatMaps → Written

abbrev pub svc_protos : List ℕ
svc_protos = 6 ∷ 17 ∷ []

abbrev pub key_eq : SvcKey → SvcKey → Bool
key_eq a b = a.ip == b.ip && (a.port == b.port && a.proto == b.proto)

-- `Update` with `UpdateAny` puts an entry before older ones of its key.
abbrev pub lookup_svc : SvcKey → List SvcEntry → Option SvcVal
lookup_svc k [] = none
lookup_svc k (e ∷ es) = if key_eq k e.key then some e.value else lookup_svc k es

abbrev pub vip_key : MgmtService → ℕ → SvcKey
vip_key svc proto = record { ip = ip_to_uint32 svc.vip; port = svc.vport; proto = proto }

abbrev pub vip_val : MgmtService → SvcVal
vip_val svc = record { ip = ip_to_uint32 svc.vip; port = svc.vport }

abbrev pub target_key : MgmtService → ℕ → SvcKey
target_key svc proto = record {
  ip = ip_to_uint32 svc.target_ip;
  port = svc.target_port;
  proto = proto;
}

abbrev pub target_val : MgmtService → SvcVal
target_val svc = record { ip = ip_to_uint32 svc.target_ip; port = svc.target_port }

abbrev pub with_fwd : MgmtService → ℕ → NatMaps → NatMaps
with_fwd svc proto m = record {
  fwd = record { key = vip_key svc proto; value = target_val svc } ∷ m.fwd;
  rev = m.rev;
}

abbrev pub with_rev : MgmtService → ℕ → NatMaps → NatMaps
with_rev svc proto m = record {
  fwd = m.fwd;
  rev = record { key = target_key svc proto; value = vip_val svc } ∷ m.rev;
}

abbrev pub and_then : Written → (NatMaps → Written) → Written
and_then (done m) next = next m
and_then (stopped e m) next = stopped e m

abbrev pub update_fwd : UpdateFailures → MgmtService → ℕ → NatMaps → Written
update_fwd k svc proto m =
    if k.fwd_fails (vip_key svc proto) then stopped write_fwd m else done (with_fwd svc proto m)

abbrev pub update_rev : UpdateFailures → MgmtService → ℕ → NatMaps → Written
update_rev k svc proto m =
    if k.rev_fails (target_key svc proto) then stopped write_rev m else done (with_rev svc proto m)

-- The inner loop.
abbrev pub write_protos : UpdateFailures → MgmtService → List ℕ → NatMaps → Written
write_protos k svc [] m = done m
write_protos k svc (p ∷ ps) m =
    and_then (and_then (update_fwd k svc p m) (update_rev k svc p)) (write_protos k svc ps)

unfoldable pub write_mgmt_services : UpdateFailures → List MgmtService → NatMaps → Written
write_mgmt_services k [] m = done m
write_mgmt_services k (s ∷ ss) m =
    and_then (write_protos k s svc_protos m) (write_mgmt_services k ss)
