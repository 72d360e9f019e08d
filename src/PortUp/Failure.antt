-- ===== src/PortUp/Failure.antt =====
-- What SetPortUp guarantees while other processes interfere (pkg/vswitch/port_up.go).
use connector.Base.{
  ℕ, sym, ◌≢◌, ◌%◌, ◌<◌, ◌≡◌, refl, inl, inr, Result, ok, err, arith, Bool-cases, ◌==◌, ==_iff, ◌⊎◌,
  ◌-◌, u32,
}
use connector.Slots.{
  MmappedSlots, inner_ip_free, inner_ip_reserved, get_inner_ip, update_slot_fields,
}
use connector.Slots.Cas.{is_slot_allocated, try_update_inner_ip}
use connector.Switch.{
  World, Kernel, SwitchContext, SwitchError, Point, check_mtu, recheck, update_options,
  recheck_again, commit, verify_owner, publish,
}
use connector.Switch.Act.{Post, Post-then, Post-ok, Post-err, then_do}
use connector.Attach.Options.{Prepared}
use connector.Geneve.{GeneveOptsValue, marshal_geneve_options}
use connector.Ip.{ip_to_uint32}
use connector.Switch.Abi.{geneve_locator_from_config, tlv_locator}
use connector.Attach.Claim.{validate_attachment_addresses-ok}
use connector.Attach.Prepare.{validate_attach_mtu, check_owner, write_geneve_opts}
use connector.Attach.Publish.{port_f_up}
use connector.Attach.Failure.{Takeover}
use connector.PortUp.{
  set_port_up, set_slot_up, commit_port_up, check_slot_mtu, replace_transit, update_owner, raise,
}
use connector.PortUp.Validate.{PortUpOptions, check_port_up, check_port}

-- Published for the address `ip`, which owned the slot at the last look; the owner is the one that the
-- processes that run behind that look have left.
pub record IsUp (k : Kernel) (slot ip : ℕ) (w : World) : Type 0 where
  pub seen : World
  pub owned : (seen.slots.items slot).inner_ip ≡ ip
  pub left : (w.slots.items slot).inner_ip ≡ ((k.others publish seen).slots.items slot).inner_ip
  pub range : slot < w.slots.num_slots
  pub owner :
      ((w.slots.items slot).inner_ip ≡ ip) ⊎ ((w.slots.items slot).inner_ip ≡ inner_ip_reserved)
  pub published : (w.slots.items slot).flags ≡ port_f_up

abbrev pub SlotDown : ℕ → World → Type 0
SlotDown slot w = (w.slots.items slot).flags ≡ 0

stays_down :
    (k : Kernel) (slot : ℕ) (q : Point) (w : World)
    → Takeover k slot
    → SlotDown slot w
    → SlotDown slot (k.others q w)
stays_down k slot q w t d = ground (arith, t.flags q w)

check_owner-down :
    (slot ip : ℕ) (w : World)
    → SlotDown slot w
    → Post (λ _. SlotDown slot) (SlotDown slot) (check_owner slot ip w)
check_owner-down slot ip w d = elim (Bool-cases (get_inner_ip w.slots slot == ip)) [
  | inl e ↦ rw e d
  | inr e ↦ rw e d
]

raised_kept :
    (slot : ℕ) (w : World)
    → ((raise slot w).1.slots.num_slots ≡ w.slots.num_slots)
      × (((raise slot w).1.slots.items slot).inner_ip ≡ (w.slots.items slot).inner_ip)
unfolding update_slot_fields
raised_kept slot w = ground arith

raised_flags :
    (slot : ℕ) (w : World)
    → slot < w.slots.num_slots
    → ((raise slot w).1.slots.items slot).flags ≡ port_f_up
unfolding update_slot_fields
raised_flags slot w range = ground arith

raise-IsUp :
    (k : Kernel) (slot ip : ℕ) (w : World)
    → Takeover k slot
    → ip ≢ inner_ip_free
    → get_inner_ip w.slots slot ≡ ip
    → IsUp k slot ip (raise slot (k.others publish w)).1
unfolding get_inner_ip
raise-IsUp k slot ip w t nz e =
    let v = k.others publish w in
    let (size, left) = raised_kept slot v in
    let range : slot < v.slots.num_slots = ground (arith, t.bound publish w) in
    let owned : (w.slots.items slot).inner_ip ≡ ip = ground arith in
    record {
      seen = w;
      owned = owned;
      left = left;
      range = omega (arith, size, range);
      owner = ground (arith, t.owner publish w, left, owned);
      published = raised_flags slot v range;
    }

check_raise-IsUp :
    (k : Kernel) (slot ip : ℕ) (w : World)
    → Takeover k slot
    → ip ≢ inner_ip_free
    → SlotDown slot w
    → Post
        (λ _. IsUp k slot ip)
        (SlotDown slot)
        (then_do (check_owner slot ip w) (λ _ v. raise slot (k.others publish v)))
check_raise-IsUp k slot ip w t nz d = elim (Bool-cases (get_inner_ip w.slots slot == ip)) [
  | inl e ↦ rw e (raise-IsUp k slot ip w t nz ((==_iff _ _).0 e))
  | inr e ↦ rw e d
]

check_slot_mtu-down :
    (k : Kernel) (s : SwitchContext) (slot total : ℕ) (w : World)
    → SlotDown slot w
    → Post (λ _. SlotDown slot) (SlotDown slot) (check_slot_mtu k s slot total w)
check_slot_mtu-down k s slot total w d = elim (Bool-cases (total == 0)) [
  | inl e ↦ rw e d
  | inr e ↦ rw e (lifted (validate_attach_mtu k s slot (w.slots.items slot).mode total))
]
  where
    lifted : (r : Result SwitchError (Unit {0})) → Post (λ _. SlotDown slot) (SlotDown slot) (r, w)
    lifted (ok u) = d
    lifted (err x) = d

write_geneve_opts-down :
    (k : Kernel) (slot : ℕ) (value : GeneveOptsValue) (w : World)
    → SlotDown slot w
    → Post (λ _. SlotDown slot) (SlotDown slot) (write_geneve_opts k slot value w)
unfolding write_geneve_opts
write_geneve_opts-down k slot value w d = elim (Bool-cases k.options_update_fails) [
  | inl e ↦ rw e d
  | inr e ↦ rw e d
]

update_flags :
    (m : MmappedSlots) (slot current new : ℕ)
    → (m.items slot).flags ≡ 0
    → ((try_update_inner_ip m slot current new).1.items slot).flags ≡ 0
unfolding try_update_inner_ip
update_flags m slot current new h = ground arith

update_owner-down :
    (slot current new : ℕ) (w : World)
    → SlotDown slot w
    → Post (λ _. SlotDown slot) (SlotDown slot) (update_owner slot current new w)
update_owner-down slot current new w d =
    let down : ((try_update_inner_ip w.slots slot current new).1.items slot).flags ≡ 0 =
      update_flags w.slots slot current new d in
    elim (Bool-cases (try_update_inner_ip w.slots slot current new).0) [
      | inl e ↦ rw e down
      | inr e ↦ rw e down
    ]

replaced_down :
    (opts : PortUpOptions) (p : Prepared) (slot : ℕ) (w : World)
    → SlotDown slot w
    → SlotDown slot (replace_transit opts p slot w).1
unfolding update_slot_fields
replaced_down opts p slot w d = ground arith

pub check_port_up-ok :
    (s : SwitchContext) (opts : PortUpOptions) (p : Prepared)
    → check_port_up s opts ≡ ok p
    → (p.inner_ip ≡ ip_to_uint32 opts.inner_ip)
      × (p.inner_ip ≢ inner_ip_free)
      × (p.inner_ip ≢ inner_ip_reserved)
      × (marshal_geneve_options
            (geneve_locator_from_config s.cfg)
            (tlv_locator s.cfg)
            opts.transit_geneve_opts
          ≡ ok (p.value, p.total_len))
unfolding check_port_up
check_port_up-ok s opts p h = ground (
  arith,
  validate_attachment_addresses-ok opts.inner_ip opts.transit_gateway_ip opts.transit_mac
      p.inner_ip,
)

commit_port_up-Post :
    (k : Kernel) (s : SwitchContext) (opts : PortUpOptions) (p : Prepared) (slot current : ℕ)
    (w : World)
    → Takeover k slot
    → p.inner_ip ≢ inner_ip_free
    → SlotDown slot w
    → Post (λ _. IsUp k slot p.inner_ip) (SlotDown slot) (commit_port_up k s opts p slot current w)
unfolding commit_port_up
commit_port_up-Post k s opts p slot current w t nz d =
    let Down : Unit {0} → World → Type 0 = λ _. SlotDown slot in
    let Up : Unit {0} → World → Type 0 = λ _. IsUp k slot p.inner_ip in
    let stay : (q : Point) (v : World) → SlotDown slot v → SlotDown slot (k.others q v) =
      λ q v d. stays_down k slot q v t d in
    Post-then Down Up (SlotDown slot) _ _
      (check_slot_mtu-down k s slot p.total_len (k.others check_mtu w) (stay check_mtu w d))
      λ _ w1 d1.
        Post-then Down Up (SlotDown slot) _ _
          (check_owner-down slot current (k.others recheck w1) (stay recheck w1 d1))
          λ _ w2 d2.
            Post-then Down Up (SlotDown slot) _ _
              (write_geneve_opts-down k slot p.value (k.others update_options w2)
                (stay update_options w2 d2))
              λ _ w3 d3.
                Post-then Down Up (SlotDown slot) _ _
                  (check_owner-down slot current (k.others recheck_again w3)
                    (stay recheck_again w3 d3))
                  λ _ w4 d4.
                    let w5 = (replace_transit opts p slot w4).1 in
                    Post-then Down Up (SlotDown slot) _ _
                      (update_owner-down slot current p.inner_ip (k.others commit w5)
                        (stay commit w5 (replaced_down opts p slot w4 d4)))
                      λ _ w6 d6.
                        check_raise-IsUp k slot p.inner_ip (k.others verify_owner w6) t nz
                          (stay verify_owner w6 d6)

-- Not published, or published for the address of the request.
set_slot_up-Post :
    (k : Kernel) (s : SwitchContext) (opts : PortUpOptions) (slot : ℕ) (w : World)
    → Takeover k slot
    → SlotDown slot w
    → Post
        (λ _. IsUp k slot (ip_to_uint32 opts.inner_ip))
        (SlotDown slot)
        (set_slot_up k s opts slot w)
unfolding set_slot_up
set_slot_up-Post k s opts slot w t d =
    elim (Bool-cases (is_slot_allocated (get_inner_ip w.slots slot))) [
      | inr e ↦ rw e d
      | inl e ↦ rw e (elim (Bool-cases ((w.slots.items slot).flags % 2 == 1)) [
        | inl odd ↦ rw odd d
        | inr even ↦ rw even (checked (check_port_up s opts) refl)
      ])
    ]
  where
    checked :
        (r : Result SwitchError Prepared)
        → check_port_up s opts ≡ r
        → Post
            (λ _. IsUp k slot (ip_to_uint32 opts.inner_ip))
            (SlotDown slot)
            (then_do (r, w) λ p. commit_port_up k s opts p slot (get_inner_ip w.slots slot))
    checked (err x) e = d
    checked (ok p) e = rw (sym (check_port_up-ok s opts p e).0) (
        commit_port_up-Post k s opts p slot (get_inner_ip w.slots slot) w t
          (check_port_up-ok s opts p e).1 d)

set_port_up-Post :
    (k : Kernel) (s : SwitchContext) (opts : PortUpOptions) (w : World)
    → Takeover k (u32 (opts.port - 1))
    → SlotDown (u32 (opts.port - 1)) w
    → Post
        (λ _. IsUp k (u32 (opts.port - 1)) (ip_to_uint32 opts.inner_ip))
        (SlotDown (u32 (opts.port - 1)))
        (set_port_up k s opts w)
unfolding set_port_up
set_port_up-Post k s opts w t d = checked (check_port s opts)
  where
    checked :
        (r : Result SwitchError (Unit {0}))
        → Post
            (λ _. IsUp k (u32 (opts.port - 1)) (ip_to_uint32 opts.inner_ip))
            (SlotDown (u32 (opts.port - 1)))
            (then_do (r, w) λ _. set_slot_up k s opts (u32 (opts.port - 1)))
    checked (err x) = d
    checked (ok u) = set_slot_up-Post k s opts (u32 (opts.port - 1)) w t d

-- If the slot was down, and whatever takeovers happen meanwhile: a failed SetPortUp leaves it down.
pub set_port_up-SlotDown :
    (k : Kernel) (s : SwitchContext) (opts : PortUpOptions) (w w' : World) (x : SwitchError)
    → Takeover k (u32 (opts.port - 1))
    → SlotDown (u32 (opts.port - 1)) w
    → set_port_up k s opts w ≡ (err x, w')
    → SlotDown (u32 (opts.port - 1)) w'
set_port_up-SlotDown k s opts w w' x t d h =
    Post-err (λ _. IsUp k (u32 (opts.port - 1)) (ip_to_uint32 opts.inner_ip)) _ _ h
      (set_port_up-Post k s opts w t d)

-- If the slot was down, and whatever takeovers happen meanwhile: after a SetPortUp that succeeds it is
-- up, the address of the request owned it at the last look, and its owner is what the takeovers between
-- that look and the store of the flag have left: that address, or Reserved.
pub set_port_up-IsUp :
    (k : Kernel) (s : SwitchContext) (opts : PortUpOptions) (w w' : World)
    → Takeover k (u32 (opts.port - 1))
    → SlotDown (u32 (opts.port - 1)) w
    → set_port_up k s opts w ≡ (ok tt, w')
    → IsUp k (u32 (opts.port - 1)) (ip_to_uint32 opts.inner_ip) w'
set_port_up-IsUp k s opts w w' t d h =
    Post-ok (λ _. IsUp k (u32 (opts.port - 1)) (ip_to_uint32 opts.inner_ip))
      (SlotDown (u32 (opts.port - 1))) _ h (set_port_up-Post k s opts w t d)
