-- ===== src/Netlink/Filter/Attached.antt =====
-- Attaching programs to a device and detaching them.
use connector.Base.{
  ℕ, ◌≡◌, refl, Bool, true, false, List, [], ◌∷◌, ◌++◌, ok, err, arith, if◌then◌else◌,
}
use connector.Netlink.Filter.{
  no_link, Filter, bpf_filter, other_filter, Direction, ingress, egress, Hooks, FilterAnswers,
  Hooking, ensure_clsact_qdisc, add_filter, attach_tc, has_bpf, has_tc_filter, undeleted, detach_tc,
}

has_bpf-append : (n : ℕ) (fs : List Filter) → has_bpf (fs ++ (bpf_filter n ∷ [])) ≡ true
has_bpf-append n [] = refl
has_bpf-append n (bpf_filter m ∷ fs) = refl
has_bpf-append n (other_filter ∷ fs) = has_bpf-append n fs

undeleted_all :
    (k : FilterAnswers) (fs : List Filter)
    → ((f : Filter) → k.delete_filter f ≡ true)
    → undeleted k fs ≡ []
undeleted_all k [] all = refl
undeleted_all k (f ∷ fs) all = ground (arith, all f, undeleted_all k fs all)

abbrev attached : FilterAnswers → Direction → Hooking → Bool
attached k d (ok _, h) = has_tc_filter k d h
attached k d (err e, h) = true

add_filter-attached :
    (k : FilterAnswers) (prog : ℕ) (d : Direction) (p : Hooking)
    → k.list_filters d ≡ true
    → attached k d (add_filter k prog d p) ≡ true
unfolding has_tc_filter
add_filter-attached k prog d (err e, h) lists = refl
add_filter-attached k prog ingress (ok _, h) lists =
    ground (arith, lists, has_bpf-append prog h.ingress_filters)
add_filter-attached k prog egress (ok _, h) lists =
    ground (arith, lists, has_bpf-append prog h.egress_filters)

detach_tc-detached :
    (k : FilterAnswers) (d : Direction) (h : Hooks)
    → ((c : Direction) → k.list_filters c ≡ true)
    → ((f : Filter) → k.delete_filter f ≡ true)
    → k.lookup ≡ true
    → has_tc_filter k d (detach_tc k h).1 ≡ false
unfolding has_tc_filter detach_tc
detach_tc-detached k ingress h lists deletes finds =
    rw (finds, lists ingress, lists egress, undeleted_all k h.ingress_filters deletes) refl
detach_tc-detached k egress h lists deletes finds =
    rw (finds, lists egress, lists ingress, undeleted_all k h.egress_filters deletes) refl

-- Where the filters can be listed, a program that was attached is seen in its direction, and after a
-- detachment whose deletions succeed none is seen in either.
pub attach_tc-detach :
    (k : FilterAnswers) (prog : ℕ) (d e : Direction) (h : Hooks)
    → ((c : Direction) → k.list_filters c ≡ true)
    → ((f : Filter) → k.delete_filter f ≡ true)
    → k.lookup ≡ true
    → (attached k d (attach_tc k prog d h) ≡ true)
      × (has_tc_filter k e (detach_tc k (attach_tc k prog d h).1).1 ≡ false)
unfolding attach_tc
attach_tc-detach k prog d e h lists deletes finds =
    (by_lookup k.lookup, detach_tc-detached k e (attach_tc k prog d h).1 lists deletes finds)
  where
    by_lookup :
        (found : Bool)
        → attached k d
            (if found then add_filter k prog d (ensure_clsact_qdisc k h) else (err no_link, h))
          ≡ true
    by_lookup true = add_filter-attached k prog d (ensure_clsact_qdisc k h) (lists d)
    by_lookup false = refl
