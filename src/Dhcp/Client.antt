-- ===== src/Dhcp/Client.antt =====
-- The DHCP client: pkg/dhcp/client.go. The third-party client answers each attempt; addresses and masks
-- are those of IPv4. A client that is made is closed at the end of its attempt.
pub mod Attempts
pub mod Masks
pub mod Gateway
use Prim.Native.Nat.{bit_and}
use connector.Base.{
  ℕ, zero, suc, ◌+◌, ◌%◌, Bool, true, false, not, ◌&&◌, Option, none, some, List, [], ◌∷◌, length,
  Result, ok, err, ltb, ◌==◌, if◌then◌else◌, Bytes, ℤ, pos, negsuc,
}
use connector.Config.Services.{IpNet}

-- `Lease`, less the time at which it was acquired.
pub record ClientLease : Type 0 where
  pub ip : Bytes
  pub netmask : Bytes
  pub prefix_len : ℕ
  pub gateway : Option Bytes
  pub dns_servers : List Bytes
  pub lease_time : ℕ
  pub server_id : Option Bytes

-- What is read of an acknowledgement.
pub record Ack : Type 0 where
  pub your_ip : Bytes
  pub subnet_mask : Option Bytes
  pub routers : List Bytes
  pub dns : List Bytes
  pub lease_time : ℕ
  pub server_id : Option Bytes

pub record RequestOptions : Type 0 where
  pub interface : Bytes
  pub timeout : ℕ
  pub retries : ℤ

-- Why an attempt fails, and why a request does.
pub data AttemptError : Type 0 where
  client_failed request_failed no_ack : AttemptError

pub data RequestError : Type 0 where
  no_interface_name unknown_interface cancelled : RequestError
  attempts_failed : Option AttemptError → RequestError

-- One attempt: whether the client can be made and what its request answers, and whether the context is
-- cancelled in the pause before the attempt and when it has failed.
pub record Attempt : Type 0 where
  pub cancelled_before : Bool
  pub client : Bool
  pub answer : Option (Option Ack)
  pub cancelled_after : Bool

-- The interface's lookup, and the attempts by the timeout and the number of the attempt.
pub record ClientAnswers : Type 0 where
  pub interface : Bool
  pub attempts : ℕ → ℕ → Attempt

-- `IPMask.Size` of a byte: the leading ones, none where another one follows a zero.
abbrev pub ones_of_byte : ℕ → Option ℕ
ones_of_byte b =
    if b == 0
    then some 0
    else if b == 128
    then some 1
    else if b == 192
    then some 2
    else if b == 224
    then some 3
    else if b == 240
    then some 4
    else if b == 248
    then some 5
    else if b == 252
    then some 6
    else if b == 254
    then some 7
    else none

abbrev all_zero : Bytes → Bool
all_zero [] = true
all_zero (b ∷ bs) = b == 0 && all_zero bs

abbrev then_zeros : Option ℕ → Bytes → Option ℕ
then_zeros none bs = none
then_zeros (some n) bs = if all_zero bs then some n else none

abbrev eight_more : Option ℕ → Option ℕ
eight_more none = none
eight_more (some n) = some (8 + n)

abbrev pub leading_ones : Bytes → Option ℕ
leading_ones [] = some 0
leading_ones (b ∷ bs) =
    let rest = leading_ones bs in
    if b == 255 then eight_more rest else then_zeros (ones_of_byte b) bs

abbrev or_zero : Option ℕ → ℕ
or_zero none = 0
or_zero (some n) = n

unfoldable pub mask_size : Bytes → ℕ
mask_size mask = or_zero (leading_ones mask)

abbrev first_of : List Bytes → Option Bytes
first_of [] = none
first_of (r ∷ rs) = some r

-- A missing mask is /24.
abbrev pub mask_of : Option Bytes → Bytes
mask_of none = 255 ∷ 255 ∷ 255 ∷ 0 ∷ []
mask_of (some mask) = mask

unfoldable pub parse_lease : Option Ack → Result AttemptError ClientLease
parse_lease none = err no_ack
parse_lease (some ack) = ok (record {
  ip = ack.your_ip;
  netmask = mask_of ack.subnet_mask;
  prefix_len = elim ack.subnet_mask [ none ↦ 24 | some mask ↦ mask_size mask ];
  gateway = first_of ack.routers;
  dns_servers = ack.dns;
  lease_time = ack.lease_time;
  server_id = ack.server_id;
})

abbrev read_answer : Option (Option Ack) → Result AttemptError ClientLease
read_answer none = err request_failed
read_answer (some ack) = parse_lease ack

unfoldable pub do_request : Attempt → Result AttemptError ClientLease
unfolding parse_lease
do_request a = if a.client then read_answer a.answer else err client_failed

-- An attempt's result before the rounds that follow it.
abbrev pub after_attempt :
    Result AttemptError ClientLease
    → Bool
    → (AttemptError → Result RequestError ClientLease)
    → Result RequestError ClientLease
after_attempt (ok l) cancelled_after next = ok l
after_attempt (err e) true next = err cancelled
after_attempt (err e) false next = next e

-- The loop of `Request`: the rounds left, the number of the attempt and the last error.
abbrev pub attempts_from :
    (ℕ → Attempt) → ℕ → ℕ → Option AttemptError → Result RequestError ClientLease
attempts_from a zero i last = err (attempts_failed last)
attempts_from a (suc left) i last =
    let next =
      after_attempt (do_request (a i)) (a i).cancelled_after
        (λ e. attempts_from a left (suc i) (some e)) in
    if ltb 0 i && (a i).cancelled_before then err cancelled else next

-- `for attempt := 0; attempt <= opts.Retries; attempt++`.
abbrev pub rounds : ℤ → ℕ
rounds (pos n) = suc n
rounds (negsuc n) = 0

abbrev pub retries_or_default : ℤ → ℤ
retries_or_default (pos zero) = pos 3
retries_or_default (pos (suc n)) = pos (suc n)
retries_or_default (negsuc n) = negsuc n

-- Five seconds, in nanoseconds.
abbrev pub timeout_or_default : ℕ → ℕ
timeout_or_default t = if t == 0 then 5000000000 else t

unfoldable pub request : ClientAnswers → RequestOptions → Result RequestError ClientLease
request k opts =
    if length opts.interface == 0
    then err no_interface_name
    else if not k.interface
    then err unknown_interface
    else attempts_from (k.attempts (timeout_or_default opts.timeout))
        (rounds (retries_or_default opts.retries)) 0 none

-- `IP.Mask` of four bytes by four bytes.
abbrev pub mask_ip : Bytes → Bytes → Bytes
mask_ip (b ∷ bs) (m ∷ ms) = bit_and b m ∷ mask_ip bs ms
mask_ip _ _ = []

-- `gateway[len(gateway)-1]++` on a byte.
abbrev pub next_ip : Bytes → Bytes
next_ip [] = []
next_ip (b ∷ []) = (b + 1) % 256 ∷ []
next_ip (b ∷ c ∷ bs) = b ∷ next_ip (c ∷ bs)

-- The transit network, the gateway, and whether it was inferred.
unfoldable pub to_transit_config : ClientLease → IpNet × Bytes × Bool
to_transit_config l = elim l.gateway [
  | some g ↦ (record { ip = l.ip; mask = l.netmask }, g, false)
  | none ↦ (record { ip = l.ip; mask = l.netmask }, next_ip (mask_ip l.ip l.netmask), true)
]
