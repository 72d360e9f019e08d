-- ===== src/Attach/Validate.antt =====
-- The checks of Attach before it claims a slot, and `validateAttachmentAddresses`, which SetPortUp
-- shares (pkg/vswitch/attach.go).
use connector.Base.{
  ℕ, ◌^◌, not, ◌&&◌, Result, ok, err, ensure, refuse, ◌>>=◌, ◌>>◌, leb, ◌==◌, if◌then◌else◌, Bytes,
  u64, length,
}
use connector.Ip.{to4, is_nil, ip_to_uint32}
use connector.Slots.{inner_ip_free, inner_ip_reserved}
use connector.Geneve.{GeneveError, valid, marshal_geneve_options, validate_transit_geneve_vni}
use connector.Switch.{
  SwitchConfig, SwitchContext, SwitchError, invalid_locator, invalid_geneve, inner_ip_not_ipv4,
  inner_ip_free_address, inner_ip_reserved_address, gateway_not_ipv4, bad_transit_mac,
  generation_without_bits, generation_out_of_range,
}
use connector.Switch.Abi.{
  geneve_locator_from_config, tlv_locator, require_attachment_abi, require_deferred_attachment_abi,
}
use connector.Attach.Options.{AttachOptions, Prepared}

unfoldable pub validate_attachment_addresses : Bytes → Bytes → Bytes → Result SwitchError ℕ
validate_attachment_addresses inner gateway mac = do
  refuse (is_nil (to4 inner)) inner_ip_not_ipv4
  let ip = ip_to_uint32 inner
  refuse (ip == inner_ip_free) inner_ip_free_address
  refuse (ip == inner_ip_reserved) inner_ip_reserved_address
  refuse (not (length gateway == 0) && is_nil (to4 gateway)) gateway_not_ipv4
  refuse (not (length mac == 0) && not (length mac == 6)) bad_transit_mac
  ok ip

-- A GENEVE error is returned as it is; its kind does not matter to the callers.
abbrev pub geneve : {A : Type 0} → Result GeneveError A → Result SwitchError A
geneve (ok a) = ok a
geneve (err _) = err invalid_geneve

-- `uint64(1) << bits` is 0 from 64 bits on.
unfoldable pub check_generation : SwitchConfig → ℕ → Result SwitchError (Unit {0})
check_generation cfg generation =
    if cfg.generation_bits == 0
    then refuse (not (generation == 0)) generation_without_bits
    else refuse (leb (u64 (2 ^ cfg.generation_bits)) generation) generation_out_of_range

unfoldable pub check_attach : SwitchContext → AttachOptions → Result SwitchError Prepared
check_attach s opts = do
  let locator = geneve_locator_from_config s.cfg
  ensure (valid locator) invalid_locator
  geneve (validate_transit_geneve_vni locator opts.transit_geneve_vni)
  marshalled ← geneve (marshal_geneve_options locator (tlv_locator s.cfg) opts.transit_geneve_opts)
  ip ← validate_attachment_addresses opts.inner_ip opts.transit_gateway_ip opts.transit_mac
  check_generation s.cfg opts.generation
  require_attachment_abi s
  if opts.admin_down then require_deferred_attachment_abi s else ok tt
  ok (record { value = marshalled.0; total_len = marshalled.1; inner_ip = ip })
