-- ===== src/Examples/Handover.antt =====
-- A request for the tap of port 1, the message that answers it, and an error line.
use connector.Base.{◌≡◌, refl, arith, [], ◌∷◌, ◌++◌, ok, true, some, Bytes, List}
use connector.Mac.{get_port_mac}
use connector.Text.{codes, trim_space}
use connector.Tapfd.Request.{
  Field, build_request, read_request_line, parse_request_line, eof, valid_request_op,
  request_version,
}
use connector.Tapfd.Request.RoundTrip.{build_request-parse}
use connector.Tapfd.Request.Tokens.{assignments, latest_first}
use connector.Tapfd.Response.{
  build_error_response, parse_error_response, default_to, provider_internal, sanitize_token,
  build_ok_response,
}
use connector.Tapfd.Response.RoundTrip.{build_error_response-parse}
use connector.Tapfd.Payload.{marshal}
use connector.Tapfd.Open.{open_port_and_send_to_conn, port_metadata, send_fd}
use connector.Tapfd.Open.Delivery.{delivered, netns_of, open_port_and_send_to_conn-delivered}
use connector.Tapfd.Receive.{ControlMessage, recv_fd}
use connector.Tapfd.Receive.Accounts.{AccountsFor, carried, recv_fd-AccountsFor}
use connector.Text.{format_uint}
use connector.Text.Address.{mac_string, ip_string}
use connector.Ip.{to4, uint32_to_ip}
use connector.Examples.Attachment.{config}
use connector.Examples.Claims.{three_free}

abbrev tokens : List Field
tokens =
    record { key = codes "switch"; value = codes "sw0" }
    ∷ record { key = codes "port"; value = codes "1" }
    ∷ []

abbrev sent_request : Bytes
sent_request = codes "TAPFD/1 OPEN want_netns=1 switch=sw0 port=1\n"

request_built : build_request (codes "OPEN") (assignments tokens) true ≡ ok sent_request
unfolding build_request trim_space valid_request_op
request_built = refl

build_request-parse_example :
    (line : Bytes) × (read_request_line eof (sent_request ++ codes "more") ≡ ok line)
    × (parse_request_line line
        ≡ ok (record {
          version = request_version;
          op = codes "OPEN";
          want_netns = true;
          entries = latest_first tokens [];
        }))
build_request-parse_example =
    build_request-parse (codes "OPEN") tokens true eof (codes "more") sent_request (ground arith)
      request_built

build_error_response-parse_example :
    parse_error_response
      (build_error_response (codes "PORT_INVALID") (codes "port 9 is veth, not tap"))
    ≡ some (
        ok (record {
          code = default_to provider_internal (sanitize_token (codes "PORT_INVALID"));
          message = default_to (codes "error") (sanitize_token (codes "port 9 is veth, not tap"));
        }))
build_error_response-parse_example =
    build_error_response-parse (codes "PORT_INVALID") (codes "port 9 is veth, not tap")
      (ground arith) (ground arith)

abbrev sent_bytes : Bytes
sent_bytes = codes "TAPFD/1 OK port=1 mac=02:00:00:00:80:00 ip=0.0.0.0 fd=1 netns_fd=1" ++ 0 ∷ []

sent :
    open_port_and_send_to_conn config three_free 0 true true (some 8) (some 7) true
    ≡ ok (sent_bytes, 7 ∷ 8 ∷ [])
unfolding open_port_and_send_to_conn send_fd marshal build_ok_response format_uint mac_string
    ip_string to4 uint32_to_ip get_port_mac
sent = refl

open_port_and_send_to_conn-delivered_example :
    (mac : Bytes) × (get_port_mac config.switch_mac config.port_mac 0 ≡ some mac)
    × (delivered sent_bytes (7 ∷ 8 ∷ []) ≡ (
      ok (record {
        taps = 7 ∷ [];
        netns = netns_of true 8;
        meta = port_metadata 0 mac (three_free.items 0).inner_ip true;
      }),
      [],
    ))
open_port_and_send_to_conn-delivered_example =
    open_port_and_send_to_conn-delivered config three_free 0 true true true 7 8 sent_bytes
      (7 ∷ 8 ∷ []) sent

-- Three descriptors in two control messages, under a payload that announces one.
abbrev surplus : List ControlMessage
surplus =
    record { is_rights = true; rights = some (5 ∷ 6 ∷ []) }
    ∷ record { is_rights = true; rights = some (9 ∷ []) }
    ∷ []

recv_fd-AccountsFor_example : AccountsFor (carried surplus) (
    recv_fd
      (λ _. true)
      (some (record { bytes = codes "port=1 mac=02 ip=10 fd=1"; control = some surplus })))
recv_fd-AccountsFor_example =
    recv_fd-AccountsFor (λ _. true) (codes "port=1 mac=02 ip=10 fd=1") surplus refl
