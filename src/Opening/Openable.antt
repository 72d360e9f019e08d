-- ===== src/Opening/Openable.antt =====
-- Which switches can be opened, and what an opened one offers.
use connector.Base.{◌≡◌, Bool, true, false, ◌&&◌, Option, none, some, Result, ok, err, Bytes, arith}
use connector.Bpf.{PinName, PinAnswer, opened, pin_slots_v2, Objects, Loading, load_pinned_maps}
use connector.Bpf.Loadable.{loadable, loads, load_pinned_maps-loadable}
use connector.Opening.{OpenAnswers, SwitchOpenError, Held, Opened, with_maps, open_switch}

abbrev is_some {ℓ} : {A : Type ℓ} → Option A → Bool
is_some none = false
is_some (some a) = true

abbrev is_there : Option Bool → Bool
is_there none = false
is_there (some b) = b

-- The pin directory is there, its maps load, and they can be read and mapped.
abbrev pub openable : OpenAnswers → Bool
openable k =
    is_there k.exists && loadable k.pins && is_some k.config && is_some k.metadata && is_some k.mmap

abbrev pub opens : Result SwitchOpenError Opened × Held → Bool
opens (ok o, h) = true
opens (err e, h) = false

abbrev readable : OpenAnswers → Bool
readable k = is_some k.config && is_some k.metadata && is_some k.mmap

with_maps-opens :
    (k : OpenAnswers) (name : Bytes) (h : Held) (l : Loading)
    → opens (with_maps k name h l) ≡ (loads l && readable k)
with_maps-opens k name h l = ground arith

-- The switch opens exactly where its pin directory is there, the pins that its layout requires open, and
-- its configuration, metadata and slots can be read.
pub open_switch-openable :
    (k : OpenAnswers) (name : Bytes) (h : Held) → opens (open_switch k name h) ≡ openable k
unfolding open_switch
open_switch-openable k name h = ground (
  arith,
  with_maps-opens k name h (load_pinned_maps k.pins h.objects),
  load_pinned_maps-loadable k.pins h.objects,
)

abbrev with_opts : Loading → Bool
with_opts (ok m, s) = is_some m.geneve_opts
with_opts (err e, s) = true

load_pinned_maps_opts :
    (pins : PinName → PinAnswer) (s : Objects)
    → pins pin_slots_v2 ≡ opened
    → with_opts (load_pinned_maps pins s) ≡ true
unfolding load_pinned_maps
load_pinned_maps_opts pins s h = rw h (ground arith)

abbrev capable : Result SwitchOpenError Opened × Held → Bool
capable (ok o, h) = o.context.has_geneve_opts
capable (err e, h) = true

-- A switch of the present layout never opens without its options map.
pub open_switch-capable :
    (k : OpenAnswers) (name : Bytes) (h : Held)
    → k.pins pin_slots_v2 ≡ opened
    → capable (open_switch k name h) ≡ true
unfolding open_switch
open_switch-capable k name h v2 = ground (arith, load_pinned_maps_opts k.pins h.objects v2)
