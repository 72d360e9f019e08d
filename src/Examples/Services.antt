-- ===== src/Examples/Services.antt =====
-- Two services of the management network.
use connector.Base.{◌≡◌, refl, arith, inl, [], ◌∷◌, ok, false, some}
use connector.Ip.{to4}
use connector.Config.Services.{
  MgmtExtract, MgmtService, validate_mgmt_services, check_services, contains,
}
use connector.MgmtService.{
  NatMaps, UpdateFailures, done, write_mgmt_services, lookup_svc, target_key, vip_val,
}
use connector.MgmtService.RoundTrip.{IsV4, write_mgmt_services-reverse}

abbrev service_net : MgmtExtract
service_net = record {
  netns = [];
  dev = [];
  service_routes = record { ip = 169 ∷ 254 ∷ 0 ∷ 0 ∷ []; mask = 255 ∷ 255 ∷ 0 ∷ 0 ∷ [] } ∷ [];
}

abbrev dns : MgmtService
dns = record {
  vip = 169 ∷ 254 ∷ 1 ∷ 1 ∷ [];
  vport = 53;
  target_ip = 10 ∷ 0 ∷ 0 ∷ 2 ∷ [];
  target_port = 5353;
}

abbrev metadata : MgmtService
metadata = record {
  vip = 169 ∷ 254 ∷ 169 ∷ 254 ∷ [];
  vport = 80;
  target_ip = 10 ∷ 0 ∷ 0 ∷ 2 ∷ [];
  target_port = 8080;
}

abbrev willing : UpdateFailures
willing = record { fwd_fails = λ _. false; rev_fails = λ _. false }

abbrev no_entries : NatMaps
no_entries = record { fwd = []; rev = [] }

services_valid : validate_mgmt_services (service_net ∷ []) (dns ∷ metadata ∷ []) ≡ ok tt
unfolding validate_mgmt_services check_services contains to4
services_valid = refl

target-IsV4 : IsV4 (10 ∷ 0 ∷ 0 ∷ 2 ∷ [])
unfolding to4
target-IsV4 = (10, 0, 0, 2, refl, omega arith, omega arith, omega arith, omega arith)

write_mgmt_services-reverse_example :
    (q : NatMaps) × (write_mgmt_services willing (dns ∷ metadata ∷ []) no_entries ≡ done q)
    × (lookup_svc (target_key metadata 6) q.rev ≡ some (vip_val metadata))
write_mgmt_services-reverse_example =
    write_mgmt_services-reverse willing (service_net ∷ []) (dns ∷ []) [] metadata 6 no_entries
      services_valid (target-IsV4, (target-IsV4, tt)) (λ _. refl) (λ _. refl) (inl refl)
