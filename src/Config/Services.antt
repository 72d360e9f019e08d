-- ===== src/Config/Services.antt =====
-- MgmtExtract, MgmtService and `validateMgmtServices` of pkg/vswitch/config.go, with the containment
-- test of the standard library's `IPNet`.
use Prim.Native.Nat.{bit_and}
use connector.Base.{
  ℕ, Bool, true, false, ◌&&◌, ◌||◌, List, [], ◌∷◌, Result, ok, err, ensure, refuse, ◌>>◌, ◌==◌,
  if◌then◌else◌, Bytes, length, drop, bytes_eq,
}
use connector.Ip.{to4, is_nil}

pub record IpNet : Type 0 where
  pub ip : Bytes
  pub mask : Bytes

pub record MgmtExtract : Type 0 where
  pub netns : Bytes
  pub dev : Bytes
  pub service_routes : List IpNet

-- The ports are uint16.
pub record MgmtService : Type 0 where
  pub vip : Bytes
  pub vport : ℕ
  pub target_ip : Bytes
  pub target_port : ℕ

pub data ConfigError : Type 0 where
  name_required switch_netns_required bad_ports bad_mac floating_base_not_ipv4 : ConfigError
  bad_generation_bits floating_window_overflows too_many_extracts bad_mtu : ConfigError
  service_without_extract vip_not_in_extract target_not_unique : ConfigError
  unknown_locator tlv_without_tlv_locator ports_exceed_udp port_base_fixed : ConfigError
  tlv_locator_required port_netns_required : ConfigError

-- The short form of an address where it has one.
abbrev pub short_form : Bytes → Bytes
short_form ip = if is_nil (to4 ip) then ip else to4 ip

abbrev pub masked_eq : Bytes → Bytes → Bytes → Bool
masked_eq [] [] [] = true
masked_eq (n ∷ ns) (x ∷ xs) (m ∷ ms) = bit_and n m == bit_and x m && masked_eq ns xs ms
masked_eq _ _ _ = false

-- The mask of a 16-byte form serves for the four bytes of an IPv4 address.
abbrev pub mask_for : Bytes → Bytes → Bytes
mask_for n mask = if length n == 4 && length mask == 16 then drop 12 mask else mask

-- `IPNet.Contains`.
unfoldable pub contains : IpNet → Bytes → Bool
contains net ip = let n = short_form net.ip in masked_eq n (short_form ip) (mask_for n net.mask)

abbrev pub any_route : List IpNet → Bytes → Bool
any_route [] vip = false
any_route (r ∷ rs) vip = contains r vip || any_route rs vip

-- The two nested loops with their breaks.
abbrev pub in_range : List MgmtExtract → Bytes → Bool
in_range [] vip = false
in_range (e ∷ es) vip = any_route e.service_routes vip || in_range es vip

-- `targetKey{ip: TargetIP.String(), port}`: an address is printed by its short form.
abbrev pub same_target : MgmtService → MgmtService → Bool
same_target a b =
    bytes_eq (short_form a.target_ip) (short_form b.target_ip) && a.target_port == b.target_port

abbrev pub is_seen : List MgmtService → MgmtService → Bool
is_seen [] svc = false
is_seen (s ∷ ss) svc = same_target s svc || is_seen ss svc

-- The loop, with the services seen so far.
unfoldable pub check_services :
    List MgmtExtract → List MgmtService → List MgmtService → Result ConfigError (Unit {0})
check_services extracts seen [] = ok tt
check_services extracts seen (svc ∷ svcs) =
    let rest = check_services extracts (svc ∷ seen) svcs in
    do
      ensure (in_range extracts svc.vip) vip_not_in_extract
      refuse (is_seen seen svc) target_not_unique
      rest

unfoldable pub validate_mgmt_services :
    List MgmtExtract → List MgmtService → Result ConfigError (Unit {0})
validate_mgmt_services extracts [] = ok tt
validate_mgmt_services [] (svc ∷ svcs) = err service_without_extract
validate_mgmt_services extracts (svc ∷ svcs) = check_services extracts [] (svc ∷ svcs)
