-- ===== src/Bpf.antt =====
-- The maps of a switch and their pins: pkg/internal/bpf/loader.go. The third-party loader answers each
-- call; what the process holds is the list of the map objects it has opened and not closed.
pub mod Balance
pub mod Closing
pub mod Loadable
use connector.Base.{
  ℕ, suc, ◌+◌, Bool, true, false, not, ◌&&◌, ◌||◌, Option, none, some, List, [], ◌∷◌, ◌++◌, Result,
  ok, err, ◌==◌, if◌then◌else◌,
}

-- The files of the pin directory.
pub data PinName : Type 0 where
  pin_slots_v2 pin_slots pin_config pin_stats pin_ifindex_to_slot pin_geneve_opts : PinName
  pin_metadata pin_mgmt_svc_fwd pin_mgmt_svc_rev : PinName

-- What `ebpf.LoadPinnedMap` answers: a map, `os.ErrNotExist`, or another error.
pub data PinAnswer : Type 0 where
  opened not_exist failed : PinAnswer

-- The map objects of the process: how many were made, and which are live, that is open, oldest first.
pub record Objects : Type 0 where
  pub made : ℕ
  pub live : List ℕ

-- `Maps`: each field is a map object, or nil.
pub record Maps : Type 0 where
  pub slots : Option ℕ
  pub config : Option ℕ
  pub stats : Option ℕ
  pub ifindex_to_slot : Option ℕ
  pub geneve_opts : Option ℕ
  pub metadata : Option ℕ
  pub mgmt_svc_fwd : Option ℕ
  pub mgmt_svc_rev : Option ℕ

pub data MapError : Type 0 where
  no_map : PinName → MapError

abbrev pub without : ℕ → List ℕ → List ℕ
without h [] = []
without h (x ∷ xs) = if h == x then xs else x ∷ without h xs

-- `ebpf.LoadPinnedMap` where it succeeds, and `Map.Close`.
abbrev pub open_map : Objects → Objects
open_map s = record { made = suc s.made; live = s.live ++ (s.made ∷ []) }

abbrev pub close_map : ℕ → Objects → Objects
close_map h s = record s { live = without h s.live }

abbrev pub close_maps : List ℕ → Objects → Objects
close_maps [] s = s
close_maps (h ∷ hs) s = close_maps hs (close_map h s)

abbrev pub Loading : Type 0
Loading = Result MapError Maps × Objects

-- One map is loaded, or those before it are closed and the load fails.
abbrev pub with_map : PinAnswer → PinName → List ℕ → Objects → (ℕ → Objects → Loading) → Loading
with_map opened p held s k = k s.made (open_map s)
with_map not_exist p held s k = (err (no_map p), close_maps held s)
with_map failed p held s k = (err (no_map p), close_maps held s)

-- The slots map, under its new name or else under the old one, and whether it is the new one.
abbrev pub with_slots : PinAnswer → PinAnswer → Objects → (ℕ → Bool → Objects → Loading) → Loading
with_slots opened old s k = k s.made true (open_map s)
with_slots not_exist old s k = with_map old pin_slots [] s (λ h. k h false)
with_slots failed old s k = (err (no_map pin_slots_v2), s)

-- The options may be missing beside the old slots map only.
abbrev pub with_geneve_opts :
    PinAnswer → Bool → List ℕ → Objects → (Option ℕ → Objects → Loading) → Loading
with_geneve_opts opened slots_v2 held s k = k (some s.made) (open_map s)
with_geneve_opts not_exist true held s k = (err (no_map pin_geneve_opts), close_maps held s)
with_geneve_opts not_exist false held s k = k none s
with_geneve_opts failed slots_v2 held s k = (err (no_map pin_geneve_opts), close_maps held s)

-- What follows the slots map.
abbrev pub load_others : (PinName → PinAnswer) → ℕ → Bool → Objects → Loading
load_others pins slots slots_v2 s = with_map (pins pin_config) pin_config (slots ∷ []) s λ config s.
    with_map (pins pin_stats) pin_stats (slots ∷ config ∷ []) s λ stats s.
      with_map (pins pin_ifindex_to_slot) pin_ifindex_to_slot (slots ∷ config ∷ stats ∷ []) s
        λ index s.
          with_map (pins pin_metadata) pin_metadata (slots ∷ config ∷ stats ∷ index ∷ []) s
            λ meta s.
              with_map (pins pin_mgmt_svc_fwd) pin_mgmt_svc_fwd
                (slots ∷ config ∷ stats ∷ index ∷ meta ∷ []) s
                λ fwd s.
                  with_map (pins pin_mgmt_svc_rev) pin_mgmt_svc_rev
                    (slots ∷ config ∷ stats ∷ index ∷ meta ∷ fwd ∷ []) s
                    λ rev s.
                      with_geneve_opts (pins pin_geneve_opts) slots_v2
                        (slots ∷ config ∷ stats ∷ index ∷ meta ∷ fwd ∷ rev ∷ []) s
                        λ opts s. (
                          ok (record {
                            slots = some slots;
                            config = some config;
                            stats = some stats;
                            ifindex_to_slot = some index;
                            geneve_opts = opts;
                            metadata = some meta;
                            mgmt_svc_fwd = some fwd;
                            mgmt_svc_rev = some rev;
                          }),
                          s,
                        )

unfoldable pub load_pinned_maps : (PinName → PinAnswer) → Objects → Loading
load_pinned_maps pins s = with_slots (pins pin_slots_v2) (pins pin_slots) s (load_others pins)

-- `Maps.Close`: a nil map is skipped.
abbrev pub close_field : Option ℕ → Objects → Objects
close_field none s = s
close_field (some h) s = close_map h s

unfoldable pub close : Maps → Objects → Objects
close m s =
    let s = close_field m.slots s in
    let s = close_field m.config s in
    let s = close_field m.stats s in
    let s = close_field m.ifindex_to_slot s in
    let s = close_field m.geneve_opts s in
    let s = close_field m.metadata s in
    let s = close_field m.mgmt_svc_fwd s in close_field m.mgmt_svc_rev s

-- `Objects.PinMaps`: the names it pins in order, up to the first that fails, and what is pinned then.
abbrev pub pin_all :
    (PinName → Bool) → List PinName → List PinName → Result MapError (Unit {0}) × List PinName
pin_all pins [] pinned = (ok tt, pinned)
pin_all pins (p ∷ ps) pinned =
    let rest = pin_all pins ps (pinned ++ (p ∷ [])) in
    if pins p then rest else (err (no_map p), pinned)

unfoldable pub pin_maps : (PinName → Bool) → Result MapError (Unit {0}) × List PinName
pin_maps pins =
    pin_all pins
      (pin_slots_v2 ∷ pin_config ∷ pin_stats ∷ pin_ifindex_to_slot ∷ pin_geneve_opts ∷ pin_metadata
        ∷ pin_mgmt_svc_fwd ∷ pin_mgmt_svc_rev ∷ [])
      []

-- `ensureBPFFS`: whether the filesystem is there, and the answers of the calls that make it.
unfoldable pub ensure_bpffs : (mounted mkdir mount : Bool) → Bool
ensure_bpffs mounted mkdir mount = mounted || (mkdir && mount)
