-- ===== src/MgmtService/RoundTrip.antt =====
-- WriteMgmtServices (pkg/vswitch/mgmt_service.go): a reply finds its way back.
use connector.Base.{
  ℕ, ◌≡◌, refl, ap, ◌⊎◌, inl, inr, Bool, true, false, ◌&&◌, ◌==◌, some, List, [], ◌∷◌, arith,
  Bool-cases, sym, ◌∙◌, All, ◌++◌, ◌<◌, Bytes, bytes_eq, bytes_eq_refl, ok, ensure-ok, refuse-ok,
}
use connector.Ip.{to4, ip_to_uint32, uint32_to_ip}
use connector.Ip.RoundTrip.{to4-uint32_to_ip, ip_to_uint32-to4}
use connector.Config.Services.{
  MgmtService, MgmtExtract, short_form, same_target, is_seen, in_range, check_services,
  validate_mgmt_services, vip_not_in_extract, target_not_unique,
}
use connector.MgmtService.{
  SvcKey, NatMaps, UpdateFailures, done, lookup_svc, target_key, vip_key, vip_val, with_fwd,
  with_rev, and_then, update_fwd, update_rev, write_protos, write_mgmt_services,
}

-- The two maps after one service.
abbrev with_svc : MgmtService → NatMaps → NatMaps
with_svc s m = with_rev s 17 (with_fwd s 17 (with_rev s 6 (with_fwd s 6 m)))

abbrev with_all : List MgmtService → NatMaps → NatMaps
with_all [] m = m
with_all (s ∷ ss) m = with_all ss (with_svc s m)

abbrev pub same_target_word : MgmtService → MgmtService → Bool
same_target_word a b =
    ip_to_uint32 a.target_ip == ip_to_uint32 b.target_ip && a.target_port == b.target_port

-- No two services share a target.
abbrev pub AreApart : List MgmtService → Type 0
AreApart [] = Unit {0}
AreApart (s ∷ ss) = All (λ t. same_target_word s t ≡ false) ss × AreApart ss

lookup-with_svc_other :
    (s t : MgmtService) (p : ℕ) (m : NatMaps)
    → same_target_word s t ≡ false
    → lookup_svc (target_key s p) (with_svc t m).rev ≡ lookup_svc (target_key s p) m.rev
lookup-with_svc_other s t p m h = ground arith

lookup-with_all_other :
    (s : MgmtService) (p : ℕ) (ts : List MgmtService) (m : NatMaps)
    → All (λ t. same_target_word s t ≡ false) ts
    → lookup_svc (target_key s p) (with_all ts m).rev ≡ lookup_svc (target_key s p) m.rev
lookup-with_all_other s p [] m h = refl
lookup-with_all_other s p (t ∷ ts) m (h, hs) =
    lookup-with_all_other s p ts (with_svc t m) hs ∙ lookup-with_svc_other s t p m h

lookup-with_svc :
    (s : MgmtService) (p : ℕ) (m : NatMaps)
    → (p ≡ 6) ⊎ (p ≡ 17)
    → lookup_svc (target_key s p) (with_svc s m).rev ≡ some (vip_val s)
lookup-with_svc s p m h = ground arith

update_fwd-done :
    (k : UpdateFailures) (s : MgmtService) (p : ℕ) (m : NatMaps)
    → ((x : SvcKey) → k.fwd_fails x ≡ false)
    → update_fwd k s p m ≡ done (with_fwd s p m)
update_fwd-done k s p m h = rw (h (vip_key s p)) refl

update_rev-done :
    (k : UpdateFailures) (s : MgmtService) (p : ℕ) (m : NatMaps)
    → ((x : SvcKey) → k.rev_fails x ≡ false)
    → update_rev k s p m ≡ done (with_rev s p m)
update_rev-done k s p m h = rw (h (target_key s p)) refl

write_protos-done :
    (k : UpdateFailures) (s : MgmtService) (p : ℕ) (ps : List ℕ) (m : NatMaps)
    → ((x : SvcKey) → k.fwd_fails x ≡ false)
    → ((x : SvcKey) → k.rev_fails x ≡ false)
    → write_protos k s (p ∷ ps) m ≡ write_protos k s ps (with_rev s p (with_fwd s p m))
write_protos-done k s p ps m hf hr =
    ap (λ w. and_then (and_then w (update_rev k s p)) (write_protos k s ps))
      (update_fwd-done k s p m hf)
    ∙ ap (λ w. and_then w (write_protos k s ps)) (update_rev-done k s p (with_fwd s p m) hr)

write_mgmt_services-done :
    (k : UpdateFailures) (ss : List MgmtService) (m : NatMaps)
    → ((x : SvcKey) → k.fwd_fails x ≡ false)
    → ((x : SvcKey) → k.rev_fails x ≡ false)
    → write_mgmt_services k ss m ≡ done (with_all ss m)
unfolding write_mgmt_services
write_mgmt_services-done k [] m hf hr = refl
write_mgmt_services-done k (s ∷ ss) m hf hr =
    ap (λ w. and_then w (write_mgmt_services k ss))
      (write_protos-done k s 6 (17 ∷ []) m hf hr
        ∙ write_protos-done k s 17 [] (with_rev s 6 (with_fwd s 6 m)) hf hr)
    ∙ write_mgmt_services-done k ss (with_svc s m) hf hr

lookup-with_all :
    (before after : List MgmtService) (s : MgmtService) (p : ℕ) (m : NatMaps)
    → (p ≡ 6) ⊎ (p ≡ 17)
    → AreApart (before ++ s ∷ after)
    → lookup_svc (target_key s p) (with_all (before ++ s ∷ after) m).rev ≡ some (vip_val s)
lookup-with_all [] after s p m known (a, _) =
    lookup-with_all_other s p after (with_svc s m) a ∙ lookup-with_svc s p m known
lookup-with_all (b ∷ bs) after s p m known (_, a) =
    lookup-with_all bs after s p (with_svc b m) known a

-- A target with a four-byte form.
abbrev pub IsV4 : Bytes → Type 0
IsV4 ip =
    (a b c d : ℕ) × (to4 ip ≡ a ∷ b ∷ c ∷ d ∷ []) × (a < 256) × (b < 256) × (c < 256) × (d < 256)

to4_back : (ip : Bytes) → IsV4 ip → to4 ip ≡ to4 (uint32_to_ip (ip_to_uint32 ip))
to4_back ip (a, b, c, d, t, ha, hb, hc, hd) =
    t
    ∙ sym (to4-uint32_to_ip a b c d ha hb hc hd)
    ∙ ap (λ x. to4 (uint32_to_ip x)) (sym (ip_to_uint32-to4 ip a b c d t))

short_form_v4 : (ip : Bytes) → IsV4 ip → short_form ip ≡ to4 ip
short_form_v4 ip (a, b, c, d, t, _, _, _, _) = rw t refl

bytes_eq-short_form :
    (x y : Bytes)
    → IsV4 x
    → IsV4 y
    → ip_to_uint32 x ≡ ip_to_uint32 y
    → bytes_eq (short_form x) (short_form y) ≡ true
bytes_eq-short_form x y hx hy e =
    let same =
      short_form_v4 x hx
      ∙ to4_back x hx
      ∙ ap (λ z. to4 (uint32_to_ip z)) e
      ∙ sym (to4_back y hy)
      ∙ sym (short_form_v4 y hy) in
    rw same (bytes_eq_refl (short_form y))

same_target-words :
    (s t : MgmtService)
    → IsV4 s.target_ip
    → IsV4 t.target_ip
    → same_target s t ≡ false
    → same_target_word s t ≡ false
same_target-words s t hs ht h = elim (Bool-cases (same_target_word s t)) [
  | inl e ↦ ground (arith, bytes_eq-short_form s.target_ip t.target_ip hs ht)
  | inr e ↦ e
]

-- No service of a checked list has the target of one seen before.
check_services-fresh :
    (es : List MgmtExtract) (seen ss : List MgmtService)
    → check_services es seen ss ≡ ok tt
    → All (λ t. is_seen seen t ≡ false) ss
unfolding check_services
check_services-fresh es seen [] h = tt
check_services-fresh es seen (s ∷ ss) h =
    let (_, h1) = ensure-ok (in_range es s.vip) vip_not_in_extract _ h in
    let (fresh, h2) = refuse-ok (is_seen seen s) target_not_unique _ h1 in
    (fresh, weaken s seen ss (check_services-fresh es (s ∷ seen) ss h2))
  where
    weaken :
        (s : MgmtService) (seen ss : List MgmtService)
        → All (λ t. is_seen (s ∷ seen) t ≡ false) ss
        → All (λ t. is_seen seen t ≡ false) ss
    weaken s seen [] h = tt
    weaken s seen (t ∷ ts) (h, hs) = (ground arith, weaken s seen ts hs)

check_services-AreApart :
    (es : List MgmtExtract) (seen ss : List MgmtService)
    → check_services es seen ss ≡ ok tt
    → All (λ t. IsV4 t.target_ip) ss
    → AreApart ss
unfolding check_services
check_services-AreApart es seen [] h v = tt
check_services-AreApart es seen (s ∷ ss) h (v, vs) =
    let (_, h1) = ensure-ok (in_range es s.vip) vip_not_in_extract _ h in
    let (_, h2) = refuse-ok (is_seen seen s) target_not_unique _ h1 in
    (
      apart s seen ss v vs (check_services-fresh es (s ∷ seen) ss h2),
      check_services-AreApart es (s ∷ seen) ss h2 vs,
    )
  where
    apart :
        (s : MgmtService) (seen ts : List MgmtService)
        → IsV4 s.target_ip
        → All (λ t. IsV4 t.target_ip) ts
        → All (λ t. is_seen (s ∷ seen) t ≡ false) ts
        → All (λ t. same_target_word s t ≡ false) ts
    apart s seen [] v vs h = tt
    apart s seen (t ∷ ts) v (w, vs) (h, hs) =
        (same_target-words s t v w (ground arith), apart s seen ts v vs hs)

validate_mgmt_services-AreApart :
    (es : List MgmtExtract) (ss : List MgmtService)
    → validate_mgmt_services es ss ≡ ok tt
    → All (λ t. IsV4 t.target_ip) ss
    → AreApart ss
unfolding validate_mgmt_services
validate_mgmt_services-AreApart es [] h v = tt
validate_mgmt_services-AreApart [] (s ∷ ss) h v = cc
validate_mgmt_services-AreApart (e ∷ es) (s ∷ ss) h v =
    check_services-AreApart (e ∷ es) [] (s ∷ ss) h v

-- For services that the configuration's check accepts, whose targets are IPv4 addresses, and a
-- kernel that refuses no update, the write succeeds, and then the reverse map sends the target of
-- every service, for TCP and for UDP, back to that service's own virtual address and port,
-- whatever the maps held before.
pub write_mgmt_services-reverse :
    (k : UpdateFailures) (es : List MgmtExtract) (before after : List MgmtService) (s : MgmtService)
    (p : ℕ) (m : NatMaps)
    → validate_mgmt_services es (before ++ s ∷ after) ≡ ok tt
    → All (λ t. IsV4 t.target_ip) (before ++ s ∷ after)
    → ((x : SvcKey) → k.fwd_fails x ≡ false)
    → ((x : SvcKey) → k.rev_fails x ≡ false)
    → (p ≡ 6) ⊎ (p ≡ 17)
    → (q : NatMaps) × (write_mgmt_services k (before ++ s ∷ after) m ≡ done q)
      × (lookup_svc
            (record { ip = ip_to_uint32 s.target_ip; port = s.target_port; proto = p })
            q.rev
          ≡ some (record { ip = ip_to_uint32 s.vip; port = s.vport }))
write_mgmt_services-reverse k es before after s p m h v hf hr known =
    let ss = before ++ s ∷ after in
    (
      with_all ss m,
      write_mgmt_services-done k ss m hf hr,
      lookup-with_all before after s p m known (validate_mgmt_services-AreApart es ss h v),
    )
