-- ===== src/Opening/Balance.antt =====
-- What opening a switch and closing it leaves open in the process.
use connector.Base.{
  suc, ◌≡◌, refl, ◌∙◌, Bool, true, false, Option, none, some, ◌++◌, Result, ok, err, Bytes, arith,
}
use mathlib.Core.List.{append-nil}
use connector.Bpf.{Objects, Maps, MapError, load_pinned_maps, close}
use connector.Bpf.Balance.{Older, Keeps, handles, load_pinned_maps-Keeps}
use connector.Bpf.Closing.{close-Holds}
use connector.Slots.{MmappedSlots}
use connector.Switch.{SwitchConfig, SwitchMetadata}
use connector.Opening.{
  OpenAnswers, opened_switch, SwitchOpenError, Held, Opened, closing_maps, with_maps, by_path,
  open_switch, close_switch,
}

-- On an error the process holds what it held; a switch that was opened is given back by closing it, its maps
-- even where the slots cannot be unmapped.
abbrev pub Balanced : Held → Result SwitchOpenError Opened × Held → Type 0
Balanced h (ok o, g) =
    ((close_switch true o g).objects.live ≡ h.objects.live)
    × ((close_switch true o g).mappings ≡ h.mappings)
    × ((close_switch false o g).objects.live ≡ h.objects.live)
    × (g.mappings ≡ suc h.mappings)
    × (g.objects.live ≡ h.objects.live ++ handles (ok o.maps))
Balanced h (err e, g) = (g.objects.live ≡ h.objects.live) × (g.mappings ≡ h.mappings)

with_maps-Balanced :
    (k : OpenAnswers) (name : Bytes) (h : Held) (r : Result MapError Maps × Objects)
    → Keeps h.objects.made h.objects.live r
    → Balanced h (with_maps k name h r)
unfolding close_switch
with_maps-Balanced k name h (err e, s) w = (w.is_open ∙ append-nil h.objects.live, refl)
with_maps-Balanced k name h (ok m, s) w = by_switch k.config k.metadata k.mmap
  where
    closed : (close m s).live ≡ h.objects.live
    closed = close-Holds h.objects.made h.objects.live m s w

    by_switch :
        (c : Option SwitchConfig) (meta : Option SwitchMetadata) (slots : Option MmappedSlots)
        → Balanced h (closing_maps m (opened_switch name m c meta slots) (record h { objects = s }))
    by_switch none meta slots = (closed, refl)
    by_switch (some c) none slots = (closed, refl)
    by_switch (some c) (some meta) none = (closed, refl)
    by_switch (some c) (some meta) (some slots) = (closed, omega arith, closed, refl, w.is_open)

-- In a process whose open map objects were all made earlier, whatever the path, the pins and the maps
-- answer: a switch that fails to open leaves no map and no mapping behind, and one that opens holds exactly
-- its maps and one mapping, which closing it gives back, the maps even where munmap fails.
pub open_switch-Balanced :
    (k : OpenAnswers) (name : Bytes) (h : Held)
    → Older h.objects.made h.objects.live
    → Balanced h (open_switch k name h)
unfolding open_switch
open_switch-Balanced k name h old = by_answer k.exists
  where
    by_answer : (e : Option Bool) → Balanced h (by_path k name h e)
    by_answer none = (refl, refl)
    by_answer (some false) = (refl, refl)
    by_answer (some true) =
        with_maps-Balanced k name h (load_pinned_maps k.pins h.objects)
          (load_pinned_maps-Keeps k.pins h.objects old)
