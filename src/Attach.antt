-- ===== src/Attach.antt =====
-- Attach of pkg/vswitch/attach.go: validation, the claim of a slot by CAS, the preparation that can
-- fail and gives the claim back, and the publication. Each kernel call is preceded by whatever
-- other processes do (`interfere`). An `int` port is a natural number; a negative one
-- behaves as 0. Strings in the output are represented by what they are printed from.
pub mod Options
pub mod Validate
pub mod Prepare
pub mod Publish
pub mod Claim
pub mod Frame
pub mod Failure
pub mod Success
pub mod Outcome
use connector.Base.{
  ℕ, zero, suc, ◌+◌, ◌-◌, Bool, true, false, not, ◌&&◌, Option, none, some, Result, ok, err, refuse,
  ltb, leb, ◌==◌, if◌then◌else◌, Bytes, u32, ◌||◌,
}
use connector.Base
use connector.Ip.{ip_to_uint32, is_nil}
use connector.Geneve.{GeneveOptsValue, geneve_wire_port, geneve_wire_vni}
use connector.Slots.{MmappedSlots}
use connector.Slots.Cas.{try_allocate}
use connector.Slots.Scan.{ScanError, find_free_slot}
use connector.Mac.{get_port_mac}
use connector.Identity.{floating_ip_for_attachment}
use connector.Switch.{
  World, SwitchContext, SwitchError, Kernel, port_device, tap_device, port_out_of_range,
  port_allocated, no_free_slot,
}
use connector.Switch.Act.{Act, ◌>>=◌, ◌>>◌, return, lift}
use connector.Switch.Abi.{geneve_locator_from_config}
use Options.{AttachOptions, AttachOutput, Overlay, Prepared, port_kind_tap}
use Validate.{check_attach}
use Prepare.{suppress, prepare}
use Publish.{publish}

abbrev pub found : Result ScanError ℕ × MmappedSlots → Act ℕ
found (ok i, m) w = (ok i, record w { slots = m })
found (err _, m) w = (err no_free_slot, record w { slots = m })

abbrev pub claimed : ℕ → Bool × MmappedSlots → Act ℕ
claimed i r w =
    if r.0 then (ok i, record w { slots = r.1 }) else (err port_allocated, record w { slots = r.1 })

-- The explicit port of the request, or the first Free slot. `uint32(opts.Port - 1)` truncates.
unfoldable pub claim : SwitchContext → AttachOptions → ℕ → Act ℕ
claim s opts ip w =
    let slot_id = u32 (opts.port - 1) in
    if not (ltb 0 opts.port)
    then found (find_free_slot w.slots ip) w
    else if leb s.cfg.n_ports slot_id
    then (err port_out_of_range, w)
    else claimed slot_id (try_allocate w.slots slot_id ip) w

-- `opts.TransitGatewayIP != nil && transitDev != ""`.
abbrev overlay_of : SwitchContext → AttachOptions → Prepared → ℕ → Option Overlay
overlay_of s opts p slot =
    let locator = geneve_locator_from_config s.cfg in
    if is_nil opts.transit_gateway_ip || is_nil s.meta.transit_dev
    then none
    else some (record {
      gateway = opts.transit_gateway_ip;
      geneve_port = geneve_wire_port locator s.cfg.geneve_port_base slot;
      geneve_locator = locator;
      transit_geneve_vni = opts.transit_geneve_vni;
      wire_geneve_vni = geneve_wire_vni locator slot opts.transit_geneve_vni;
      geneve_opts_len = p.total_len;
    })

unfoldable pub attach_output : SwitchContext → AttachOptions → Prepared → ℕ → ℕ → AttachOutput
attach_output s opts p slot kind =
    let is_tap = kind == port_kind_tap in
    record {
      port = slot + 1;
      admin_down = opts.admin_down;
      generation = opts.generation;
      generation_bits = s.cfg.generation_bits;
      port_dev = if is_tap then tap_device (slot + 1) else port_device (slot + 1);
      port_netns = if is_tap then s.meta.switch_netns else opts.to_netns;
      port_mac = get_port_mac s.cfg.switch_mac s.cfg.port_mac slot;
      inner_ip = opts.inner_ip;
      floating_ip = floating_ip_for_attachment s.cfg.floating_ip_base slot opts.generation;
      mode = kind;
      overlay = overlay_of s opts p slot;
    }

-- What follows a claim: the first update, the preparation and the publication. The output shows the
-- kind that the slot had when it was claimed.
unfoldable pub complete :
    Kernel → SwitchContext → AttachOptions → Prepared → ℕ → ℕ → Act AttachOutput
complete k s opts p slot kind = do
  suppress opts slot
  prepare k s opts slot p
  publish k opts p slot
  return (attach_output s opts p slot kind)

abbrev complete_claimed : Kernel → SwitchContext → AttachOptions → Prepared → ℕ → Act AttachOutput
complete_claimed k s opts p slot w = complete k s opts p slot (w.slots.items slot).mode w

unfoldable pub attach : Kernel → SwitchContext → AttachOptions → Act AttachOutput
attach k s opts = do
  p ← lift (check_attach s opts)
  slot ← claim s opts p.inner_ip
  complete_claimed k s opts p slot
