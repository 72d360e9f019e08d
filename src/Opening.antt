-- ===== src/Opening.antt =====
-- Opening a switch and closing it: openSwitch, Close and Ports of pkg/vswitch/context.go. The pins and
-- the reads of the maps answer through the kernel; what the process holds is its map objects and its
-- mappings of the slots.
pub mod Balance
pub mod Lock
pub mod Openable
use connector.Base.{
  ℕ, zero, suc, ◌+◌, ◌-◌, ◌<◌, Bool, true, false, not, ◌&&◌, Option, none, some, List, [], ◌∷◌,
  ◌++◌, Result, ok, err, Bytes, ltb, if◌then◌else◌,
}
use connector.Slots.{MmappedSlots, SlotItem, get_slot}
use connector.Slots.Cas.{is_slot_allocated}
use connector.Switch.{SwitchConfig, SwitchMetadata, SwitchContext}
use connector.Bpf.{PinName, PinAnswer, Objects, Maps, MapError, load_pinned_maps, close}

-- `exists` is the answer of `PinPathExists`, none where the path cannot be inspected.
pub record OpenAnswers : Type 0 where
  pub exists : Option Bool
  pub pins : PinName → PinAnswer
  pub config : Option SwitchConfig
  pub metadata : Option SwitchMetadata
  pub mmap : Option MmappedSlots

pub data CorruptedBy : Type 0 where
  load_failed : MapError → CorruptedBy
  config_failed metadata_failed mmap_failed : CorruptedBy

-- Past the check of the path every error says that the switch is corrupted.
pub data SwitchOpenError : Type 0 where
  check_failed switch_not_exist : SwitchOpenError
  corrupted : CorruptedBy → SwitchOpenError

pub record Held : Type 0 where
  pub objects : Objects
  pub mappings : ℕ

pub record Opened : Type 0 where
  pub context : SwitchContext
  pub maps : Maps
  pub slots : MmappedSlots

abbrev is_map : Option ℕ → Bool
is_map none = false
is_map (some h) = true

abbrev opened_switch :
    Bytes
    → Maps
    → Option SwitchConfig
    → Option SwitchMetadata
    → Option MmappedSlots
    → Result CorruptedBy Opened
opened_switch name m none meta slots = err config_failed
opened_switch name m (some cfg) none slots = err metadata_failed
opened_switch name m (some cfg) (some meta) none = err mmap_failed
opened_switch name m (some cfg) (some meta) (some slots) = ok (record {
  context = record { name = name; cfg = cfg; meta = meta; has_geneve_opts = is_map m.geneve_opts };
  maps = m;
  slots = slots;
})

-- The deferred function: the maps are closed where an error is returned.
abbrev pub closing_maps :
    Maps → Result CorruptedBy Opened → Held → Result SwitchOpenError Opened × Held
closing_maps m (ok o) h = (ok o, record h { mappings = suc h.mappings })
closing_maps m (err e) h = (err (corrupted e), record h { objects = close m h.objects })

abbrev pub with_maps :
    OpenAnswers
    → Bytes
    → Held
    → Result MapError Maps × Objects
    → Result SwitchOpenError Opened × Held
with_maps k name h (err e, s) = (err (corrupted (load_failed e)), record h { objects = s })
with_maps k name h (ok m, s) =
    closing_maps m (opened_switch name m k.config k.metadata k.mmap) (record h { objects = s })

abbrev pub by_path : OpenAnswers → Bytes → Held → Option Bool → Result SwitchOpenError Opened × Held
by_path k name h none = (err check_failed, h)
by_path k name h (some false) = (err switch_not_exist, h)
by_path k name h (some true) = with_maps k name h (load_pinned_maps k.pins h.objects)

unfoldable pub open_switch : OpenAnswers → Bytes → Held → Result SwitchOpenError Opened × Held
open_switch k name h = by_path k name h k.exists

-- `Close` of an opened switch; `unmaps` is the outcome of munmap, whose error Close ignores.
unfoldable pub close_switch : Bool → Opened → Held → Held
close_switch unmaps o h = record {
  objects = close o.maps h.objects;
  mappings = if unmaps then h.mappings - 1 else h.mappings;
}

pub record PortSlot : Type 0 where
  pub item : SlotItem
  pub port : ℕ
  pub allocated : Bool

-- One round of `Ports`: slot `i` before the rest.
abbrev port_onto : Bool → ℕ → Option SlotItem → List PortSlot → List PortSlot
port_onto allocated_only i none rest = rest
port_onto allocated_only i (some slot) rest =
    if allocated_only && not (is_slot_allocated slot.inner_ip)
    then rest
    else record { item = slot; port = i + 1; allocated = is_slot_allocated slot.inner_ip } ∷ rest

-- The slots from `i` on, `left` of them.
abbrev ports_from : MmappedSlots → Bool → ℕ → ℕ → List PortSlot
ports_from m allocated_only zero i = []
ports_from m allocated_only (suc left) i =
    port_onto allocated_only i (get_slot m i) (ports_from m allocated_only left (suc i))

unfoldable pub ports : Opened → Bool → List PortSlot
ports o allocated_only = ports_from o.slots allocated_only o.context.cfg.n_ports 0
