-- ===== src/Netlink/Filter.antt =====
-- The hooks of a device for programs: pkg/netlink/tc.go. A device is known to be there; the lookups by
-- name and what each call answers are arguments.
pub mod Attached
use connector.Base.{
  ℕ, Bool, true, false, not, ◌&&◌, ◌||◌, Option, none, some, Bytes, List, [], ◌∷◌, ◌++◌, Result, ok,
  err, if◌then◌else◌,
}

-- A filter is a program's or of another kind.
pub data Filter : Type 0 where
  bpf_filter : ℕ → Filter
  other_filter : Filter

pub data Direction : Type 0 where
  ingress egress : Direction

-- `block` is the shared block that the queueing discipline is bound to.
pub record Hooks : Type 0 where
  pub clsact : Bool
  pub block : Option ℕ
  pub ingress_filters : List Filter
  pub egress_filters : List Filter

pub record FilterAnswers : Type 0 where
  pub lookup : Bool
  pub list_qdiscs : Bool
  pub add_qdisc : Bool
  pub add_filter : Bool
  pub list_filters : Direction → Bool
  pub delete_filter : Filter → Bool

pub data FilterError : Type 0 where
  no_link list_failed qdisc_failed filter_failed : FilterError

abbrev pub Hooking : Type 0
Hooking = Result FilterError (Unit {0}) × Hooks

abbrev pub filters_of : Direction → Hooks → List Filter
filters_of ingress h = h.ingress_filters
filters_of egress h = h.egress_filters

abbrev pub with_filters : Direction → List Filter → Hooks → Hooks
with_filters ingress fs h = record h { ingress_filters = fs }
with_filters egress fs h = record h { egress_filters = fs }

unfoldable pub ensure_clsact_qdisc : FilterAnswers → Hooks → Hooking
ensure_clsact_qdisc k h =
    if not k.list_qdiscs
    then (err list_failed, h)
    else if h.clsact
    then (ok tt, h)
    else if k.add_qdisc
    then (ok tt, record h { clsact = true; block = none })
    else (err qdisc_failed, h)

abbrev add_filter : FilterAnswers → ℕ → Direction → Hooking → Hooking
add_filter k prog d (err e, h) = (err e, h)
add_filter k prog d (ok _, h) =
    if k.add_filter
    then (ok tt, with_filters d (filters_of d h ++ (bpf_filter prog ∷ [])) h)
    else (err filter_failed, h)

unfoldable pub attach_tc : FilterAnswers → ℕ → Direction → Hooks → Hooking
attach_tc k prog d h =
    if k.lookup then add_filter k prog d (ensure_clsact_qdisc k h) else (err no_link, h)

abbrev pub has_bpf : List Filter → Bool
has_bpf [] = false
has_bpf (bpf_filter n ∷ fs) = true
has_bpf (other_filter ∷ fs) = has_bpf fs

unfoldable pub has_tc_filter : FilterAnswers → Direction → Hooks → Bool
has_tc_filter k d h = if k.list_filters d then has_bpf (filters_of d h) else false

-- The filters that a round of deletions leaves; its errors are dropped.
abbrev pub undeleted : FilterAnswers → List Filter → List Filter
undeleted k [] = []
undeleted k (f ∷ fs) = let rest = undeleted k fs in if k.delete_filter f then rest else f ∷ rest

abbrev detach_direction : FilterAnswers → Direction → Hooks → Hooks
detach_direction k d h =
    if k.list_filters d then with_filters d (undeleted k (filters_of d h)) h else h

unfoldable pub detach_tc : FilterAnswers → Hooks → Hooking
detach_tc k h =
    if k.lookup
    then (ok tt, detach_direction k egress (detach_direction k ingress h))
    else (err no_link, h)

-- A discipline that is there answers EEXIST, which is no error, whatever block it is bound to.
unfoldable pub add_clsact_with_block : FilterAnswers → ℕ → Hooks → Hooking
add_clsact_with_block k n h =
    if h.clsact
    then (ok tt, h)
    else if k.add_qdisc
    then (ok tt, record h { clsact = true; block = some n })
    else (err qdisc_failed, h)

-- What adding a link answers; `unsupported` where the kernel has no module of the kind.
pub data AddAnswer : Type 0 where
  added unsupported refused : AddAnswer

pub data Anchor : Type 0 where
  dummy_anchor tap_anchor : Anchor

abbrev as_tap : AddAnswer → Option Anchor
as_tap added = some tap_anchor
as_tap unsupported = none
as_tap refused = none

-- `CreateDummyLink`: the device that anchors the block, a tap where there is no dummy.
unfoldable pub create_dummy_link : (dummy tap : AddAnswer) → Option Anchor
create_dummy_link added tap = some dummy_anchor
create_dummy_link unsupported tap = as_tap tap
create_dummy_link refused tap = none
