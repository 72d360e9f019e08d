-- ===== src/Dhcp.antt =====
-- pkg/dhcp/server.go: the pool of the DHCP server and its answers. A lease is the address's word, keyed by
-- the bytes of the hardware address. Building a packet is a third-party library's: `reply_fails`
-- is its error. The mutex makes each allocation one step.
pub mod Pool
pub mod Client
use connector.Base.{
  ℕ, ◌+◌, Bool, true, false, not, ◌&&◌, ◌||◌, Option, none, some, List, [], ◌∷◌, Result, ok, err,
  ltb, ◌==◌, if◌then◌else◌, Bytes, bytes_eq, replicate, u32,
}
use connector.Ip.{is_nil, ip_to_uint32, uint32_to_ip}
use connector.Config.Services.{short_form}
use connector.Config.Match.{ip_equal}

pub record Lease : Type 0 where
  pub mac : Bytes
  pub address : ℕ

pub record IpPool : Type 0 where
  pub start : ℕ
  pub end : ℕ
  pub next : ℕ
  pub leases : List Lease

pub data PoolError : Type 0 where
  invalid_range start_after_end exhausted no_reply : PoolError

unfoldable pub new_ip_pool : Bytes → Bytes → Result PoolError IpPool
new_ip_pool start end =
    let s = ip_to_uint32 start in
    let e = ip_to_uint32 end in
    if s == 0 || e == 0
    then err invalid_range
    else if ltb e s
    then err start_after_end
    else ok (record { start = s; end = e; next = s; leases = [] })

abbrev pub lookup : Bytes → List Lease → Option ℕ
lookup mac [] = none
lookup mac (l ∷ ls) = if bytes_eq mac l.mac then some l.address else lookup mac ls

abbrev pub leased : IpPool → Bytes → IpPool
leased p mac = record p {
  leases = record { mac = mac; address = p.next } ∷ p.leases;
  next = u32 (p.next + 1);
}

abbrev pub allocate_new : IpPool → Bytes → Result PoolError ℕ × IpPool
allocate_new p mac = if ltb p.end p.next then (err exhausted, p) else (ok p.next, leased p mac)

abbrev pub allocate_known : IpPool → Bytes → Option ℕ → Result PoolError ℕ × IpPool
allocate_known p mac (some ip) = (ok ip, p)
allocate_known p mac none = allocate_new p mac

unfoldable pub allocate : IpPool → Bytes → Result PoolError ℕ × IpPool
allocate p mac = allocate_known p mac (lookup mac p.leases)

pub data MessageType : Type 0 where
  discover request other_type : MessageType

pub record Message : Type 0 where
  pub type : MessageType
  pub client_hw_addr : Bytes
  pub requested_ip : Bytes
  pub client_ip : Bytes

pub data Reply : Type 0 where
  offer ack : ℕ → Reply
  nak : Reply

abbrev pub is_unspecified : Bytes → Bool
is_unspecified ip = bytes_eq (short_form ip) (replicate 4 0) || bytes_eq ip (replicate 16 0)

-- The address that a client asks for: the option, or else its own.
abbrev pub requested : Message → Bytes
requested m =
    if is_nil m.requested_ip || is_unspecified m.requested_ip then m.client_ip else m.requested_ip

abbrev pub refuses : Bytes → ℕ → Bool
refuses ip lease =
    not (is_nil ip) && not (is_unspecified ip) && not (ip_equal ip (uint32_to_ip lease))

abbrev pub offered : Bool → Result PoolError ℕ × IpPool → Option Reply × IpPool
offered reply_fails (err _, p) = (none, p)
offered reply_fails (ok ip, p) = (if reply_fails then none else some (offer ip), p)

abbrev pub answered : Bool → Message → Result PoolError ℕ × IpPool → Option Reply × IpPool
answered reply_fails m (err _, p) = (none, p)
answered reply_fails m (ok ip, p) =
    (if reply_fails then none else some (if refuses (requested m) ip then nak else ack ip), p)

-- The switch on the message's type.
abbrev pub by_type :
    MessageType → Bool → Message → Result PoolError ℕ × IpPool → IpPool → Option Reply × IpPool
by_type discover reply_fails m r p = offered reply_fails r
by_type request reply_fails m r p = answered reply_fails m r
by_type other_type reply_fails m r p = (none, p)

-- The answer that `handler` sends, if any. An address is allocated before the request is compared.
unfoldable pub handler : Bool → IpPool → Message → Option Reply × IpPool
unfolding allocate
handler reply_fails p m = by_type m.type reply_fails m (allocate p m.client_hw_addr) p
