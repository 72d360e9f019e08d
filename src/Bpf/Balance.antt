-- ===== src/Bpf/Balance.antt =====
-- The map objects that loading the pinned maps and closing them leave open.
use connector.Base.{
  ℕ, ◌≤◌, ◌<◌, ◌≡◌, ap, ◌∙◌, Bool, true, false, Option, none, some, List, [], ◌∷◌, ◌++◌, All,
  Result, ok, err, arith, sym,
}
use mathlib.Core.List.{append-nil, append_assoc}
use connector.Bpf.{
  no_map, pin_slots_v2, pin_slots, pin_config, pin_stats, pin_ifindex_to_slot, pin_geneve_opts,
  pin_metadata, pin_mgmt_svc_fwd, pin_mgmt_svc_rev, PinName, PinAnswer, opened, not_exist, failed,
  Objects, Maps, MapError, without, open_map, close_map, close_maps, Loading, with_map, with_slots,
  with_geneve_opts, load_pinned_maps,
}

-- No object of the list is `n` or a later one.
abbrev pub Older : ℕ → List ℕ → Type 0
Older n = All (λ h. h < n)

pub without-append :
    (n h : ℕ) (xs ys : List ℕ) → n ≤ h → Older n xs → without h (xs ++ (h ∷ ys)) ≡ xs ++ ys
without-append n h [] ys le old = ground arith
without-append n h (x ∷ xs) ys le (lt, old) = ground (arith, without-append n h xs ys le old)

-- `held` are the objects opened on top of `before`.
pub record Holds (n : ℕ) (before held : List ℕ) (s : Objects) : Type 0 where
  pub old : Older n before
  pub newer : All (λ h. n ≤ h) held
  pub is_open : s.live ≡ before ++ held

-- The same, and the next object is not among those from before.
abbrev pub Opens : ℕ → List ℕ → List ℕ → Objects → Type 0
Opens n before held s = (n ≤ s.made) × Holds n before held s

Opens-start : (s : Objects) → Older s.made s.live → Opens s.made s.live [] s
Opens-start s old =
    (ground arith, record { old = old; newer = tt; is_open = sym (append-nil s.live) })

All-append :
    (n h : ℕ) (hs : List ℕ) → All (λ i. n ≤ i) hs → n ≤ h → All (λ i. n ≤ i) (hs ++ (h ∷ []))
All-append n h [] _ le = (le, tt)
All-append n h (x ∷ hs) (l, ls) le = (l, All-append n h hs ls le)

opened_at :
    (n : ℕ) (before held : List ℕ) (s : Objects)
    → Opens n before held s
    → Opens n before (held ++ (s.made ∷ [])) (open_map s)
opened_at n before held s (next, o) = (
  ground (arith, next),
  record {
    old = o.old;
    newer = All-append n s.made held o.newer next;
    is_open = ap (λ t. t ++ (s.made ∷ [])) o.is_open ∙ append_assoc before held (s.made ∷ []);
  },
)

-- Closing what was opened leaves what was open before.
pub closed_all :
    (n : ℕ) (before held : List ℕ) (s : Objects)
    → Holds n before held s
    → (close_maps held s).live ≡ before
closed_all n before [] s o = o.is_open ∙ append-nil before
closed_all n before (h ∷ held) s o = closed_all n before held (close_map h s) (record {
  old = o.old;
  newer = o.newer.1;
  is_open = ap (without h) o.is_open ∙ without-append n h before held o.newer.0 o.old;
})

abbrev pub field_handles : Option ℕ → List ℕ → List ℕ
field_handles none hs = hs
field_handles (some h) hs = h ∷ hs

-- The objects that a result holds, in the order in which they were opened.
abbrev pub handles : Result MapError Maps → List ℕ
handles (err e) = []
handles (ok m) = field_handles m.slots (
    field_handles m.config (
      field_handles m.stats (
        field_handles m.ifindex_to_slot (
          field_handles m.metadata (
            field_handles m.mgmt_svc_fwd
              (field_handles m.mgmt_svc_rev (field_handles m.geneve_opts [])))))))

-- The open objects are those from before and those of the result.
abbrev pub Keeps : ℕ → List ℕ → Loading → Type 0
Keeps n before r = Holds n before (handles r.0) r.1

Keeps-err :
    (n : ℕ) (before held : List ℕ) (e : MapError) (s : Objects)
    → Opens n before held s
    → Keeps n before (err e, close_maps held s)
Keeps-err n before held e s (_, o) = record {
  old = o.old;
  newer = tt;
  is_open = closed_all n before held s o ∙ sym (append-nil before);
}

-- One more map keeps the account where what follows does.
with_map-Keeps :
    (a : PinAnswer) (p : PinName) (n : ℕ) (before held : List ℕ) (s : Objects)
    (k : ℕ → Objects → Loading)
    → Opens n before held s
    → ((h : ℕ) (t : Objects) → Opens n before (held ++ (h ∷ [])) t → Keeps n before (k h t))
    → Keeps n before (with_map a p held s k)
with_map-Keeps opened p n before held s k o next =
    next s.made (open_map s) (opened_at n before held s o)
with_map-Keeps not_exist p n before held s k o next = Keeps-err n before held (no_map p) s o
with_map-Keeps failed p n before held s k o next = Keeps-err n before held (no_map p) s o

with_slots-Keeps :
    (new old : PinAnswer) (n : ℕ) (before : List ℕ) (s : Objects) (k : ℕ → Bool → Objects → Loading)
    → Opens n before [] s
    → ((h : ℕ) (v2 : Bool) (t : Objects) → Opens n before (h ∷ []) t → Keeps n before (k h v2 t))
    → Keeps n before (with_slots new old s k)
with_slots-Keeps opened old n before s k o next =
    next s.made true (open_map s) (opened_at n before [] s o)
with_slots-Keeps not_exist old n before s k o next =
    with_map-Keeps old pin_slots n before [] s (λ h. k h false) o (λ h t. next h false t)
with_slots-Keeps failed old n before s k o next = Keeps-err n before [] (no_map pin_slots_v2) s o

with_geneve_opts-Keeps :
    (a : PinAnswer) (v2 : Bool) (n : ℕ) (before held : List ℕ) (s : Objects)
    (k : Option ℕ → Objects → Loading)
    → Opens n before held s
    → ((h : ℕ) (t : Objects) → Opens n before (held ++ (h ∷ [])) t → Keeps n before (k (some h) t))
    → ((t : Objects) → Opens n before held t → Keeps n before (k none t))
    → Keeps n before (with_geneve_opts a v2 held s k)
with_geneve_opts-Keeps opened v2 n before held s k o next missing =
    next s.made (open_map s) (opened_at n before held s o)
with_geneve_opts-Keeps not_exist true n before held s k o next missing =
    Keeps-err n before held (no_map pin_geneve_opts) s o
with_geneve_opts-Keeps not_exist false n before held s k o next missing = missing s o
with_geneve_opts-Keeps failed v2 n before held s k o next missing =
    Keeps-err n before held (no_map pin_geneve_opts) s o

-- Loading the maps leaves exactly those open that its result holds, whatever the pins answer.
pub load_pinned_maps-Keeps :
    (pins : PinName → PinAnswer) (s : Objects)
    → Older s.made s.live
    → Keeps s.made s.live (load_pinned_maps pins s)
unfolding load_pinned_maps
load_pinned_maps-Keeps pins s old =
    let n = s.made in
    let b = s.live in
    with_slots-Keeps (pins pin_slots_v2) (pins pin_slots) n b s _ (Opens-start s old)
      λ slots v2 t o. with_map-Keeps (pins pin_config) pin_config n b _ t _ o λ config t o.
        with_map-Keeps (pins pin_stats) pin_stats n b _ t _ o λ stats t o.
          with_map-Keeps (pins pin_ifindex_to_slot) pin_ifindex_to_slot n b _ t _ o λ index t o.
            with_map-Keeps (pins pin_metadata) pin_metadata n b _ t _ o λ meta t o.
              with_map-Keeps (pins pin_mgmt_svc_fwd) pin_mgmt_svc_fwd n b _ t _ o λ fwd t o.
                with_map-Keeps (pins pin_mgmt_svc_rev) pin_mgmt_svc_rev n b _ t _ o λ rev t o.
                  with_geneve_opts-Keeps (pins pin_geneve_opts) v2 n b _ t _ o (λ opts t o. o.1)
                    (λ t o. o.1)
