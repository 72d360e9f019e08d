-- ===== src/Bpf/Loadable.antt =====
-- When the pinned maps of a switch can be loaded.
use connector.Base.{
  ◌≡◌, refl, Bool, true, false, not, ◌==◌, ◌&&◌, ◌||◌, List, [], ◌∷◌, Result, ok, err, ◌∙◌, ℕ,
  Option, none, some, arith, if◌then◌else◌,
}
use connector.Bpf.{
  load_others, pin_slots_v2, pin_slots, pin_config, pin_stats, pin_ifindex_to_slot, pin_geneve_opts,
  pin_metadata, pin_mgmt_svc_fwd, pin_mgmt_svc_rev, PinName, PinAnswer, opened, not_exist, failed,
  Objects, MapError, Loading, with_map, with_slots, with_geneve_opts, load_pinned_maps, open_map,
  pin_maps,
}

abbrev is_opened : PinAnswer → Bool
is_opened opened = true
is_opened not_exist = false
is_opened failed = false

abbrev is_missing : PinAnswer → Bool
is_missing not_exist = true
is_missing opened = false
is_missing failed = false

abbrev all_opened : (PinName → PinAnswer) → List PinName → Bool
all_opened pins [] = true
all_opened pins (p ∷ ps) = is_opened (pins p) && all_opened pins ps

abbrev required : List PinName
required =
    pin_config ∷ pin_stats ∷ pin_ifindex_to_slot ∷ pin_metadata ∷ pin_mgmt_svc_fwd
    ∷ pin_mgmt_svc_rev ∷ []

-- A switch of the present layout has its slots under the new name and its options; one of the old
-- layout has no map of the new name, and its options may be missing. Every other map is required.
abbrev pub loadable : (PinName → PinAnswer) → Bool
loadable pins =
    all_opened pins required
    && (is_opened (pins pin_slots_v2) && is_opened (pins pin_geneve_opts)
        || is_missing (pins pin_slots_v2)
          && is_opened (pins pin_slots)
          && (is_opened (pins pin_geneve_opts) || is_missing (pins pin_geneve_opts)))

abbrev pub loads : Loading → Bool
loads (ok m, s) = true
loads (err e, s) = false

with_map-loads :
    (a : PinAnswer) (p : PinName) (held : List ℕ) (s : Objects) (k : ℕ → Objects → Loading)
    (b : Bool)
    → ((h : ℕ) (t : Objects) → loads (k h t) ≡ b)
    → loads (with_map a p held s k) ≡ is_opened a && b
with_map-loads a p held s k b next = ground (arith, next s.made (open_map s))

with_slots-loads :
    (a b : PinAnswer) (s : Objects) (k : ℕ → Bool → Objects → Loading) (new old : Bool)
    → ((h : ℕ) (t : Objects) → loads (k h true t) ≡ new)
    → ((h : ℕ) (t : Objects) → loads (k h false t) ≡ old)
    → loads (with_slots a b s k) ≡ ((is_opened a && new) || (is_missing a && is_opened b && old))
with_slots-loads a b s k new old at_new at_old =
    ground (arith, at_new s.made (open_map s), at_old s.made (open_map s))

with_geneve_opts-loads :
    (a : PinAnswer) (v2 : Bool) (held : List ℕ) (s : Objects) (k : Option ℕ → Objects → Loading)
    → ((o : Option ℕ) (t : Objects) → loads (k o t) ≡ true)
    → loads (with_geneve_opts a v2 held s k) ≡ (is_opened a || (not v2 && is_missing a))
with_geneve_opts-loads a v2 held s k done =
    ground (arith, done (some s.made) (open_map s), done none s)

load_others-loads :
    (pins : PinName → PinAnswer) (slots : ℕ) (v2 : Bool) (s : Objects)
    → loads (load_others pins slots v2 s) ≡ (
        all_opened pins required
        && (is_opened (pins pin_geneve_opts) || (not v2 && is_missing (pins pin_geneve_opts))))
load_others-loads pins slots v2 s =
    with_map-loads (pins pin_config) pin_config _ s _ _ (λ config t.
      with_map-loads (pins pin_stats) pin_stats _ t _ _ λ stats t.
        with_map-loads (pins pin_ifindex_to_slot) pin_ifindex_to_slot _ t _ _ λ index t.
          with_map-loads (pins pin_metadata) pin_metadata _ t _ _ λ meta t.
            with_map-loads (pins pin_mgmt_svc_fwd) pin_mgmt_svc_fwd _ t _ _ λ fwd t.
              with_map-loads (pins pin_mgmt_svc_rev) pin_mgmt_svc_rev _ t _ _
                λ rev t. with_geneve_opts-loads (pins pin_geneve_opts) v2 _ t _ λ o t. refl)
    ∙ ground arith

-- The maps load exactly where `loadable` holds of the pins.
pub load_pinned_maps-loadable :
    (pins : PinName → PinAnswer) (s : Objects) → loads (load_pinned_maps pins s) ≡ loadable pins
unfolding load_pinned_maps
load_pinned_maps-loadable pins s =
    with_slots-loads (pins pin_slots_v2) (pins pin_slots) s (load_others pins) _ _
      (λ h. load_others-loads pins h true) (λ h. load_others-loads pins h false)
    ∙ ground arith

abbrev pin_number : PinName → ℕ
pin_number pin_slots_v2 = 0
pin_number pin_slots = 1
pin_number pin_config = 2
pin_number pin_stats = 3
pin_number pin_ifindex_to_slot = 4
pin_number pin_geneve_opts = 5
pin_number pin_metadata = 6
pin_number pin_mgmt_svc_fwd = 7
pin_number pin_mgmt_svc_rev = 8

abbrev is_pinned : List PinName → PinName → Bool
is_pinned [] p = false
is_pinned (q ∷ qs) p = pin_number q == pin_number p || is_pinned qs p

-- What loading finds in a directory with these pins.
abbrev pub answers_of : List PinName → PinName → PinAnswer
answers_of pinned p = if is_pinned pinned p then opened else not_exist

abbrev pub pins_all : Result MapError (Unit {0}) × List PinName → Bool
pins_all (ok _, pinned) = true
pins_all (err e, pinned) = false

-- A directory can be loaded exactly where every pin of `pin_maps` was made.
pub pin_maps-loadable :
    (pins : PinName → Bool) (s : Objects)
    → loads (load_pinned_maps (answers_of (pin_maps pins).1) s) ≡ pins_all (pin_maps pins)
unfolding pin_maps
pin_maps-loadable pins s = load_pinned_maps-loadable (answers_of (pin_maps pins).1) s ∙ ground arith
