-- ===== src/Tapfd/Open/Delivery.antt =====
-- What openPortAndSendToConn sends is what RecvFdsWithNetns hands out.
use mathlib.Core.List.{append-nil}
use connector.Base.{
  ℕ, ◌<◌, ◌≡◌, refl, sym, ap, ◌∙◌, Bool, true, false, Option, some, none, List, [], ◌∷◌, ◌++◌,
  Result, ok, err, Bytes, arith, >>=-ok,
}
use connector.Ip.{to4, uint32_to_ip}
use connector.Text.{is_empty}
use connector.Text.Address.{mac_string-IsToken, ip_string-IsToken}
use connector.Tapfd.Response.{build_ok_response, strip_ok_response, ResponseError}
use connector.Tapfd.Response.RoundTrip.{build_ok_response-strip}
use connector.Tapfd.Payload.{PortMetadata, marshal, payload_line, parse_payload, PayloadError}
use connector.Tapfd.Payload.RoundTrip.{IsMetadata, marshal-line, marshal-parse}
use connector.Tapfd.Receive.{Received, recv_fds_with_netns, collect}
use connector.Switch.{SwitchConfig}
use connector.Slots.{MmappedSlots}
use connector.Mac.{get_port_mac}
use connector.Tapfd.Open.{
  send_fd, lift_payload, lift_response, prefixed, sent_fds, netns_count, port_metadata,
  send_metadata, with_mac, open_port_and_send_to_conn,
}

port_metadata-IsMetadata :
    (slot_id : ℕ) (mac : Bytes) (inner_ip : ℕ) (want : Bool)
    → IsMetadata (port_metadata slot_id mac inner_ip want)
port_metadata-IsMetadata slot_id mac inner_ip want = record {
  mac_word = (mac_string-IsToken mac).0;
  mac_no_nul = (mac_string-IsToken mac).1;
  ip_word = (ip_string-IsToken (to4 (uint32_to_ip inner_ip))).0;
  ip_no_nul = (ip_string-IsToken (to4 (uint32_to_ip inner_ip))).1;
  port_fits = omega arith;
  fd_fits = omega arith;
  netns_fits = netns_count_fits want;
}
  where
    netns_count_fits : (want : Bool) → netns_count want < 256
    netns_count_fits true = omega arith
    netns_count_fits false = omega arith

lift_payload-ok : (r : Result PayloadError Bytes) (p : Bytes) → lift_payload r ≡ ok p → r ≡ ok p
lift_payload-ok (ok x) p h = cc
lift_payload-ok (err e) p h = cc

lift_response-ok : (r : Result ResponseError Bytes) (p : Bytes) → lift_response r ≡ ok p → r ≡ ok p
lift_response-ok (ok x) p h = cc
lift_response-ok (err e) p h = cc

-- The receiver strips what the sender put in front.
prefixed-strip :
    (with_prefix : Bool) (m : PortMetadata) (plain message : Bytes)
    → marshal m ≡ ok plain
    → prefixed with_prefix plain ≡ ok message
    → strip_ok_response message ≡ ok plain
prefixed-strip true m plain message hm h =
    build_ok_response-strip plain message (lift_response-ok (build_ok_response plain) message h)
prefixed-strip false m plain message hm h =
    let same : message ≡ plain = cc in
    ap strip_ok_response (same ∙ marshal-line m plain hm)
    ∙ unprefixed m
    ∙ ap ok (sym (marshal-line m plain hm))
  where
    unprefixed :
        (m : PortMetadata)
        → strip_ok_response (payload_line m ++ 0 ∷ []) ≡ ok (payload_line m ++ 0 ∷ [])
    unprefixed m = unfold strip_ok_response in refl

send_fd-ok :
    (sent : Bool) (message bytes : Bytes) (fds carried : List ℕ)
    → send_fd sent message fds ≡ ok (bytes, carried)
    → (is_empty message ≡ false) × (bytes ≡ message) × (carried ≡ fds)
unfolding send_fd
send_fd-ok sent message bytes fds carried h = ground arith

abbrev pub delivered : Bytes → List ℕ → Received
delivered bytes fds =
    recv_fds_with_netns (λ _. true)
      (some (record {
        bytes = bytes;
        control = some (record { is_rights = true; rights = some fds } ∷ []);
      }))

abbrev pub netns_of : Bool → ℕ → Option ℕ
netns_of true fd = some fd
netns_of false fd = none

delivered-sent_fds :
    (want : Bool) (slot_id inner_ip tap netns : ℕ) (mac bytes plain : Bytes)
    → is_empty bytes ≡ false
    → strip_ok_response bytes ≡ ok plain
    → parse_payload plain ≡ ok (port_metadata slot_id mac inner_ip want)
    → delivered bytes (sent_fds want tap netns) ≡ (
      ok (record {
        taps = tap ∷ [];
        netns = netns_of want netns;
        meta = port_metadata slot_id mac inner_ip want;
      }),
      [],
    )
unfolding recv_fds_with_netns collect
delivered-sent_fds true slot_id inner_ip tap netns mac bytes plain f s p = rw (f, s, p) refl
delivered-sent_fds false slot_id inner_ip tap netns mac bytes plain f s p = rw (f, s, p) refl

send_metadata-delivered :
    (want with_prefix sent : Bool) (slot_id inner_ip tap netns : ℕ) (mac bytes : Bytes)
    (fds : List ℕ)
    → send_metadata sent want with_prefix (port_metadata slot_id mac inner_ip want) tap netns
      ≡ ok (bytes, fds)
    → delivered bytes fds ≡ (
      ok (record {
        taps = tap ∷ [];
        netns = netns_of want netns;
        meta = port_metadata slot_id mac inner_ip want;
      }),
      [],
    )
send_metadata-delivered want with_prefix sent slot_id inner_ip tap netns mac bytes fds h =
    let m = port_metadata slot_id mac inner_ip want in
    let (plain, hm, h1) = >>=-ok (lift_payload (marshal m)) _ h in
    let (message, hp, h2) = >>=-ok (prefixed with_prefix plain) _ h1 in
    let (some_bytes, same_bytes, same_fds) =
      send_fd-ok sent message bytes (sent_fds want tap netns) fds h2 in
    let written = lift_payload-ok (marshal m) plain hm in
    rw (same_bytes, same_fds)
      (delivered-sent_fds want slot_id inner_ip tap netns mac message plain some_bytes
        (prefixed-strip with_prefix m plain message written hp)
        (ap parse_payload (sym (append-nil plain))
          ∙ marshal-parse m plain [] (port_metadata-IsMetadata slot_id mac inner_ip want) written))

-- Whatever message a successful hand-over sent, with or without the TAPFD/1 prefix and with or
-- without a namespace, a receiver of it whose wrapping of descriptors does not fail is given the
-- sender's tap descriptor and, exactly if it was asked for, the namespace's, with the port number,
-- the port's MAC and the slot's address in the metadata, and closes nothing.
pub open_port_and_send_to_conn-delivered :
    (cfg : SwitchConfig) (slots : MmappedSlots) (slot_id : ℕ) (want with_prefix sent : Bool)
    (tap netns : ℕ) (bytes : Bytes) (fds : List ℕ)
    → open_port_and_send_to_conn cfg slots slot_id want with_prefix (some netns) (some tap) sent
      ≡ ok (bytes, fds)
    → (mac : Bytes) × (get_port_mac cfg.switch_mac cfg.port_mac slot_id ≡ some mac)
      × (delivered bytes fds ≡ (
        ok (record {
          taps = tap ∷ [];
          netns = netns_of want netns;
          meta = port_metadata slot_id mac (slots.items slot_id).inner_ip want;
        }),
        [],
      ))
unfolding open_port_and_send_to_conn
open_port_and_send_to_conn-delivered cfg slots slot_id want with_prefix sent tap netns bytes fds h =
    by_mac (get_port_mac cfg.switch_mac cfg.port_mac slot_id) refl h
  where
    by_mac :
        (o : Option Bytes)
        → get_port_mac cfg.switch_mac cfg.port_mac slot_id ≡ o
        → with_mac o (λ mac.
          send_metadata sent want with_prefix
            (port_metadata slot_id mac (slots.items slot_id).inner_ip want)
            tap
            netns)
          ≡ ok (bytes, fds)
        → (mac : Bytes) × (get_port_mac cfg.switch_mac cfg.port_mac slot_id ≡ some mac)
          × (delivered bytes fds ≡ (
            ok (record {
              taps = tap ∷ [];
              netns = netns_of want netns;
              meta = port_metadata slot_id mac (slots.items slot_id).inner_ip want;
            }),
            [],
          ))
    by_mac none e h = cc
    by_mac (some mac) e h = (
      mac,
      e,
      send_metadata-delivered want with_prefix sent slot_id (slots.items slot_id).inner_ip tap netns
          mac bytes fds h,
    )
