-- ===== src/Examples/Leases.antt =====
-- Two clients of a pool of two addresses.
use connector.Base.{
  ◌+◌, ℕ, ◌≡◌, refl, ◌≢◌, ◌≤◌, arith, [], ◌∷◌, ok, Bool, false, some, Bytes, List, true, none, not,
  ◌==◌, if◌then◌else◌, pos,
}
use connector.Ip.{ip_to_uint32}
use connector.Dhcp.{
  IpPool, Message, MessageType, discover, request, ack, new_ip_pool, handler, allocate, lookup,
}
use connector.Dhcp.Pool.{serve, handler-lease}
use connector.Config.Services.{contains}
use connector.Dhcp.Client.{
  Ack, ClientLease, Attempt, ClientAnswers, RequestOptions, do_request, parse_lease, mask_size,
  request as client_request, mask_ip, to_transit_config,
}
use connector.Dhcp.Client.Attempts.{IsFirst, request-lease}
use connector.Dhcp.Client.Gateway.{number_from, inferred_gateway-contained}

abbrev pool_start : Bytes
pool_start = 10 ∷ 0 ∷ 0 ∷ 5 ∷ []

abbrev pool_end : Bytes
pool_end = 10 ∷ 0 ∷ 0 ∷ 6 ∷ []

abbrev pool : IpPool
pool = record { start = 167772165; end = 167772166; next = 167772165; leases = [] }

abbrev message : MessageType → ℕ → Message
message type id = record {
  type = type;
  client_hw_addr = id ∷ [];
  requested_ip = [];
  client_ip = [];
}

new_pool : new_ip_pool pool_start pool_end ≡ ok pool
unfolding new_ip_pool ip_to_uint32
new_pool = refl

end_word : ip_to_uint32 pool_end ≡ 167772166
unfolding ip_to_uint32
end_word = refl

abbrev first_client : List (Bool × Message)
first_client = (false, message discover 1) ∷ []

acknowledged :
    (handler false (serve first_client pool) (message request 2)).0 ≡ some (ack 167772166)
unfolding handler serve allocate
acknowledged = refl

handler-lease_example :
    let q =
      serve
        ((false, message request 1) ∷ [])
        (handler false (serve first_client pool) (message request 2)).1 in
    (lookup (2 ∷ []) q.leases ≡ some 167772166)
    × (ip_to_uint32 pool_start ≤ 167772166)
    × (167772166 ≤ ip_to_uint32 pool_end)
    × (lookup (1 ∷ []) q.leases ≢ some 167772166)
handler-lease_example =
    handler-lease pool_start pool_end pool first_client ((false, message request 1) ∷ []) false
      (message request 2) (1 ∷ []) 167772166 differ new_pool (omega (arith, end_word)) acknowledged
  where
    differ : ◌≢◌ {A = Bytes} (1 ∷ []) (2 ∷ [])
    differ e = cc

-- A lease without a router in a network of sixteen addresses.
abbrev plain_ack : Ack
plain_ack = record {
  your_ip = 10 ∷ 0 ∷ 0 ∷ 37 ∷ [];
  subnet_mask = some (255 ∷ 255 ∷ 255 ∷ 240 ∷ []);
  routers = [];
  dns = [];
  lease_time = 60;
  server_id = none;
}

abbrev plain_lease : ClientLease
plain_lease = record {
  ip = 10 ∷ 0 ∷ 0 ∷ 37 ∷ [];
  netmask = 255 ∷ 255 ∷ 255 ∷ 240 ∷ [];
  prefix_len = 28;
  gateway = none;
  dns_servers = [];
  lease_time = 60;
  server_id = none;
}

-- The first two attempts fail.
abbrev third_works : ℕ → Attempt
third_works i = record {
  cancelled_before = false;
  client = not (i == 0);
  answer = if i == 2 then some (some plain_ack) else none;
  cancelled_after = false;
}

abbrev client_answers : ClientAnswers
client_answers = record { interface = true; attempts = λ _. third_works }

abbrev client_options : RequestOptions
client_options = record { interface = 101 ∷ []; timeout = 0; retries = pos 0 }

third_leases : do_request (third_works 2) ≡ ok plain_lease
unfolding do_request parse_lease mask_size
third_leases = refl

request-lease_example :
    (j : ℕ) × (m : ClientLease) × (client_request client_answers client_options ≡ ok m)
    × (j ≤ 2)
    × IsFirst third_works 0 j m
request-lease_example =
    request-lease client_answers client_options 3 2 plain_lease (λ h. omega arith) refl refl
      (omega arith) (λ j le. (refl, refl)) third_leases

inferred_gateway-contained_example :
    (contains (to_transit_config plain_lease).0 (to_transit_config plain_lease).1 ≡ true)
    × (number_from 0 (to_transit_config plain_lease).1
        ≡ number_from 0 (mask_ip plain_lease.ip plain_lease.netmask) + 1)
inferred_gateway-contained_example =
    inferred_gateway-contained plain_lease 28 refl refl
      (omega arith, (omega arith, (omega arith, (omega arith, tt)))) refl (omega arith)
