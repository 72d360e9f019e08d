-- ===== src/Tapfd/Open.antt =====
-- The hand-over of a tap descriptor: validateOpenPort and openPortAndSendToConn of
-- cmd/connector-ctl/open_port.go, with SendFd of pkg/tapfd/send.go. The tap, the namespace and the socket are
-- the kernel's: what opening them gives is an argument.
pub mod Delivery
use connector.Base.{
  ℕ, ◌+◌, ◌-◌, Bool, true, false, ◌||◌, not, Option, none, some, List, [], ◌∷◌, ◌++◌, Result, ok,
  err, ensure, refuse, ◌>>◌, ◌>>=◌, leb, ◌==◌, if◌then◌else◌, Bytes, u32, ℤ, pos, negsuc,
}
use connector.Ip.{to4, uint32_to_ip}
use connector.Slots.{
  MmappedSlots, get_slot, get_inner_ip, SlotItem, inner_ip_free, inner_ip_reserved,
}
use connector.Mac.{get_port_mac}
use connector.Switch.{SwitchConfig}
use connector.Attach.Options.{port_kind_tap}
use connector.Text.{is_empty}
use connector.Text.Address.{mac_string, ip_string}
use connector.Tapfd.Response.{ResponseError, build_ok_response}
use connector.Tapfd.Payload.{PortMetadata, PayloadError, marshal}

pub data OpenError : Type 0 where
  port_not_positive port_out_of_range not_tap not_provisioned not_attached : OpenError
  netns_failed tap_failed send_failed panics : OpenError
  payload : PayloadError → OpenError
  response : ResponseError → OpenError

abbrev pub check_slot : MmappedSlots → ℕ → Option SlotItem → Result OpenError ℕ
check_slot slots slot_id none = err panics
check_slot slots slot_id (some slot) = do
  let ip = get_inner_ip slots slot_id
  ensure (slot.mode == port_kind_tap) not_tap
  refuse (slot.ifindex == 0) not_provisioned
  refuse (ip == inner_ip_free || ip == inner_ip_reserved) not_attached
  ok slot_id

abbrev pub check_open_port : SwitchConfig → MmappedSlots → ℕ → Result OpenError ℕ
check_open_port cfg slots port =
    let slot_id = u32 (port - 1) in
    if leb cfg.n_ports slot_id
    then err port_out_of_range
    else check_slot slots slot_id (get_slot slots slot_id)

unfoldable pub validate_open_port : SwitchConfig → MmappedSlots → ℤ → Result OpenError ℕ
validate_open_port cfg slots (negsuc n) = err port_not_positive
validate_open_port cfg slots (pos n) =
    if n == 0 then err port_not_positive else check_open_port cfg slots n

-- `SendFd`: the payload and the descriptors of one message.
unfoldable pub send_fd : Bool → Bytes → List ℕ → Result OpenError (Bytes × List ℕ)
send_fd sent message fds =
    if is_empty fds || is_empty message || not sent then err send_failed else ok (message, fds)

abbrev pub lift_payload : Result PayloadError Bytes → Result OpenError Bytes
lift_payload (ok p) = ok p
lift_payload (err e) = err (payload e)

abbrev pub lift_response : Result ResponseError Bytes → Result OpenError Bytes
lift_response (ok p) = ok p
lift_response (err e) = err (response e)

abbrev pub prefixed : Bool → Bytes → Result OpenError Bytes
prefixed true p = lift_response (build_ok_response p)
prefixed false p = ok p

abbrev pub sent_fds : Bool → ℕ → ℕ → List ℕ
sent_fds true tap netns = tap ∷ netns ∷ []
sent_fds false tap netns = tap ∷ []

abbrev pub netns_count : Bool → ℕ
netns_count true = 1
netns_count false = 0

abbrev pub port_metadata : ℕ → Bytes → ℕ → Bool → PortMetadata
port_metadata slot_id mac inner_ip want = record {
  port = u32 (slot_id + 1);
  mac = mac_string mac;
  inner_ip = ip_string (to4 (uint32_to_ip inner_ip));
  fd_count = 1;
  netns_fd_count = netns_count want;
}

abbrev pub send_metadata :
    Bool → Bool → Bool → PortMetadata → ℕ → ℕ → Result OpenError (Bytes × List ℕ)
send_metadata sent want ok_prefix m tap netns = do
  plain ← lift_payload (marshal m)
  message ← prefixed ok_prefix plain
  send_fd sent message (sent_fds want tap netns)

abbrev pub with_mac :
    Option Bytes → (Bytes → Result OpenError (Bytes × List ℕ)) → Result OpenError (Bytes × List ℕ)
with_mac none f = err panics
with_mac (some mac) f = f mac

abbrev pub with_fd :
    OpenError
    → Option ℕ
    → (ℕ → Result OpenError (Bytes × List ℕ))
    → Result OpenError (Bytes × List ℕ)
with_fd e none f = err e
with_fd e (some fd) f = f fd

unfoldable pub open_port_and_send_to_conn :
    SwitchConfig
    → MmappedSlots
    → ℕ
    → Bool
    → Bool
    → Option ℕ
    → Option ℕ
    → Bool
    → Result OpenError (Bytes × List ℕ)
open_port_and_send_to_conn cfg slots slot_id want ok_prefix netns_fd tap_fd sent =
    with_fd netns_failed netns_fd λ netns. with_fd tap_failed tap_fd λ tap.
      with_mac (get_port_mac cfg.switch_mac cfg.port_mac slot_id) λ mac.
        send_metadata sent want ok_prefix
          (port_metadata slot_id mac (slots.items slot_id).inner_ip want) tap netns
