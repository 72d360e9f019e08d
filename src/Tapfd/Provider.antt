-- ===== src/Tapfd/Provider.antt =====
-- PREPARE of the tap descriptor provider (cmd/connector-ctl/tapfd_server.go): the options of a request, the
-- attachment, the answer, and the rollback. The parsers of addresses, of a Boolean and of options are
-- arguments; `[]` is a nil address.
pub mod Rollback
pub mod Ports
use connector.Base.{
  ℕ, Bool, true, false, not, Option, none, some, List, [], ◌∷◌, ◌++◌, Result, ok, err, ensure,
  refuse, ◌>>◌, ◌>>=◌, ltb, ◌==◌, if◌then◌else◌, Bytes,
}
use connector.Ip.{to4, uint32_to_ip}
use connector.Geneve.{GeneveOption}
use connector.Switch.{
  SwitchContext, World, Kernel, SwitchError, port_out_of_range, port_allocated, port_not_attached,
  port_not_provisioned, no_free_slot,
}
use connector.Attach.Options.{AttachOptions, AttachOutput, port_kind_tap}
use connector.Attach.{attach}
use connector.Detach.{DetachOptions, detach}
use connector.Text.{codes, is_empty, format_uint, parse_uint}
use connector.Text.Address.{mac_string, ip_string}
use connector.Tapfd.Request.{Request, Field, request_field, field_value}
use connector.Tapfd.Response.{ResponseError, build_ok_line}

pub record Parsers : Type 0 where
  pub parse_ip : Bytes → Bytes
  pub parse_mac : Bytes → Option Bytes
  pub parse_bool : Bytes → Option Bool
  pub parse_options : Bytes → Option (List GeneveOption)

pub data OptionsError : Type 0 where
  missing_inner_ip invalid_inner_ip invalid_admin_down invalid_generation : OptionsError
  invalid_gateway invalid_vni invalid_opts invalid_mac : OptionsError

abbrev pub parsed_or {ℓ} : {A : Type ℓ} → OptionsError → Option A → Result OptionsError A
parsed_or e none = err e
parsed_or e (some a) = ok a

-- A field that is left out has its zero value.
abbrev pub or_zero {ℓ} :
    {A : Type ℓ} → OptionsError → A → (Bytes → Option A) → Bytes → Result OptionsError A
or_zero e zero parse text = if is_empty text then ok zero else parsed_or e (parse text)

-- A nil address is the parser's error.
abbrev pub non_nil : Bytes → Option Bytes
non_nil [] = none
non_nil (b ∷ bs) = some (b ∷ bs)

-- The first of the keys that the request has decides, even with an empty value.
abbrev pub admin_down_of : Parsers → List Bytes → Request → Result OptionsError Bool
admin_down_of ps [] req = ok false
admin_down_of ps (key ∷ keys) req = elim (field_value key req.entries) [
  | some v ↦ parsed_or invalid_admin_down (ps.parse_bool v)
  | none ↦ admin_down_of ps keys req
]

unfoldable pub prepare_attach_options : Parsers → Request → Result OptionsError AttachOptions
prepare_attach_options ps req = do
  let inner = request_field (codes "inner_ip" ∷ codes "INNER_IP" ∷ []) req
  refuse (is_empty inner) missing_inner_ip
  refuse (is_empty (ps.parse_ip inner)) invalid_inner_ip
  down ← admin_down_of ps (codes "admin_down" ∷ codes "ADMIN_DOWN" ∷ []) req
  generation ←
      or_zero invalid_generation 0 (parse_uint 4294967296)
        (request_field (codes "generation" ∷ codes "GENERATION" ∷ []) req)
  gateway ←
      or_zero invalid_gateway [] (λ t. non_nil (ps.parse_ip t))
        (request_field
          (codes "transit_gateway_ip"
            ∷ codes "transit-gateway-ip"
            ∷ codes "TRANSIT_GATEWAY_IP"
            ∷ [])
          req)
  vni ← or_zero invalid_vni 0 (parse_uint 4294967296) (
      request_field
        (codes "transit_geneve_vni" ∷ codes "transit-geneve-vni" ∷ codes "TRANSIT_GENEVE_VNI" ∷ [])
        req)
  options ← or_zero invalid_opts [] ps.parse_options (
      request_field
        (codes "transit_geneve_opts"
          ∷ codes "transit-geneve-opts"
          ∷ codes "TRANSIT_GENEVE_OPTS"
          ∷ [])
        req)
  mac ← or_zero invalid_mac [] ps.parse_mac (
      request_field
        (codes "transit_mac"
          ∷ codes "transit-mac"
          ∷ codes "transit-mac-addr"
          ∷ codes "TRANSIT_MAC"
          ∷ [])
        req)
  ok (record {
    port = 0;
    generation = generation;
    to_netns = [];
    inner_ip = ps.parse_ip inner;
    transit_gateway_ip = gateway;
    transit_geneve_vni = vni;
    transit_geneve_opts = options;
    transit_mac = mac;
    admin_down = down;
    skip_device = false;
  })

pub data ErrorCode : Type 0 where
  bad_request port_invalid port_unavailable provider_internal : ErrorCode

unfoldable pub tapfd_error_code : SwitchError → ErrorCode
tapfd_error_code port_out_of_range = port_invalid
tapfd_error_code port_allocated = port_unavailable
tapfd_error_code port_not_attached = port_unavailable
tapfd_error_code port_not_provisioned = port_unavailable
tapfd_error_code no_free_slot = port_unavailable
tapfd_error_code _ = provider_internal

-- What the client gets: an error, the line, or nothing because writing the line failed.
pub data PrepareReply : Type 0 where
  refused : ErrorCode → PrepareReply
  granted : Bytes → PrepareReply
  lost : PrepareReply

abbrev pub sent_line : Bool → Result ResponseError Bytes → PrepareReply
sent_line written (err _) = refused provider_internal
sent_line written (ok line) = if written then granted line else lost

unfoldable pub send_tapfd_ok : Bool → Bytes → PrepareReply
send_tapfd_ok written fields = sent_line written (build_ok_line fields)

abbrev pub mac_text : Option Bytes → Bytes
mac_text none = []
mac_text (some mac) = mac_string mac

abbrev pub generation_field : AttachOutput → Bytes
generation_field out =
    if out.generation_bits == 0 then [] else codes " generation=" ++ format_uint out.generation

abbrev pub admin_down_field : Bool → Bytes
admin_down_field true = codes " admin_down=1"
admin_down_field false = []

-- Of a tap.
unfoldable pub response : AttachOutput → Bytes
response out =
    (codes "port=" ++ format_uint out.port)
    ++ (generation_field out
        ++ ((codes " floating_ip=" ++ ip_string (to4 (uint32_to_ip out.floating_ip)))
            ++ ((codes " mac=" ++ mac_text out.port_mac)
                ++ ((codes " ip=" ++ ip_string (to4 out.inner_ip))
                    ++ (codes " mode=tap" ++ admin_down_field out.admin_down)))))

abbrev pub rollback : AttachOutput → DetachOptions
rollback out = record { port = out.port; from_netns = []; skip_device = true }

abbrev pub wrong_mode : Result SwitchError (Unit {0}) × World → PrepareReply × World
wrong_mode (err _, w) = (refused provider_internal, w)
wrong_mode (ok _, w) = (refused port_invalid, w)

-- A client that did not get the port number cannot release the port.
abbrev pub answer_client :
    Kernel → SwitchContext → AttachOutput → PrepareReply → World → PrepareReply × World
answer_client k s out (granted line) w = (granted line, w)
answer_client k s out r w = (r, (detach k s (rollback out) w).1)

abbrev pub after_attach :
    Kernel → SwitchContext → Bool → Result SwitchError AttachOutput × World → PrepareReply × World
after_attach k s written (err e, w) = (refused (tapfd_error_code e), w)
after_attach k s written (ok out, w) =
    if not (out.mode == port_kind_tap)
    then wrong_mode (detach k s (rollback out) w)
    else answer_client k s out (send_tapfd_ok written (response out)) w

abbrev pub with_options :
    Kernel → SwitchContext → Bool → Result OptionsError AttachOptions → World → PrepareReply × World
with_options k s written (err _) w = (refused bad_request, w)
with_options k s written (ok opts) w = after_attach k s written (attach k s opts w)

-- `written` is whether the client's end takes the whole line.
unfoldable pub handle_tapfd_prepare :
    Parsers → Kernel → SwitchContext → Bool → Request → World → PrepareReply × World
unfolding prepare_attach_options send_tapfd_ok response
handle_tapfd_prepare ps k s written req w =
    with_options k s written (prepare_attach_options ps req) w
