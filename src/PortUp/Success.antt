-- ===== src/PortUp/Success.antt =====
-- What SetPortUp does when no other process interferes (pkg/vswitch/port_up.go).
use connector.Base.{
  ℕ, ◌≡◌, refl, ◌≢◌, inl, inr, true, Result, ok, err, arith, Bool-cases, ◌==◌, ◌%◌,
}
use connector.Ip.{ip_to_uint32}
use connector.Slots.{MmappedSlots, get_inner_ip, update_slot_fields}
use connector.Slots.Cas.{is_slot_allocated, try_update_inner_ip}
use connector.Slots.Laws.{SameBut}
use connector.Switch.{
  verify_owner, publish, World, Kernel, SwitchContext, SwitchError, check_mtu, recheck,
  update_options, recheck_again, commit,
}
use connector.Switch.Act.{Post, Post-then, then_do}
use connector.Attach.Options.{Prepared}
use connector.Attach.Prepare.{check_owner, write_geneve_opts, validate_attach_mtu, transit_mac_of}
use connector.Attach.Publish.{up, port_f_up}
use connector.Attach.Frame.{put_options}
use connector.Attach.Success.{IsQuiet}
use connector.PortUp.{
  commit_port_up, check_slot_mtu, replace_transit, replaced, update_owner, raise,
}
use connector.PortUp.Validate.{PortUpOptions}

-- The slot was allocated and down; it is now up for the new address with the whole requested transit
-- state. The generation, the counters' readiness and the device are the attachment's as before, and
-- nothing else changed.
pub record IsRaised (opts : PortUpOptions) (p : Prepared) (slot : ℕ) (w0 w : World) : Type 0 where
  pub was_allocated : is_slot_allocated (w0.slots.items slot).inner_ip ≡ true
  pub was_down : (w0.slots.items slot).flags % 2 ≢ 1
  pub item : w.slots.items slot ≡ record (w0.slots.items slot) {
    inner_ip = p.inner_ip;
    flags = port_f_up;
    geneve_opts_len = p.value.len;
    transit_gateway_ip = ip_to_uint32 opts.transit_gateway_ip;
    transit_geneve_vni = opts.transit_geneve_vni;
    transit_mac = transit_mac_of opts.transit_mac;
  }
  pub value : w.geneve_opts slot ≡ p.value
  pub same : SameBut slot w0.slots w.slots
  pub options : (j : ℕ) → j ≢ slot → w.geneve_opts j ≡ w0.geneve_opts j
  pub stats : w.stats ≡ w0.stats

check_slot_mtu-same :
    (k : Kernel) (s : SwitchContext) (slot total : ℕ) (w : World)
    → Post (λ _ v. v ≡ w) (λ v. v ≡ w) (check_slot_mtu k s slot total w)
check_slot_mtu-same k s slot total w = elim (Bool-cases (total == 0)) [
  | inl e ↦ rw e refl
  | inr e ↦ rw e (lifted (validate_attach_mtu k s slot (w.slots.items slot).mode total))
]
  where
    lifted : (r : Result SwitchError (Unit {0})) → Post (λ _ v. v ≡ w) (λ v. v ≡ w) (r, w)
    lifted (ok u) = refl
    lifted (err x) = refl

check_owner_same :
    (slot ip : ℕ) (w : World) → get_inner_ip w.slots slot ≡ ip → check_owner slot ip w ≡ (ok tt, w)
check_owner_same slot ip w e = ground (arith, e)

update_owner_wins :
    (slot current new : ℕ) (w : World)
    → get_inner_ip w.slots slot ≡ current
    → is_slot_allocated current ≡ true
    → is_slot_allocated new ≡ true
    → update_owner slot current new w
      ≡ (ok tt, record w { slots = (try_update_inner_ip w.slots slot current new).1 })
unfolding try_update_inner_ip get_inner_ip
update_owner_wins slot current new w e a b = ground (arith, e)

-- The world that the writes of a quiet run leave.
abbrev final : PortUpOptions → Prepared → ℕ → ℕ → World → World
final opts p slot current w = record w {
  geneve_opts = (put_options slot p.value w).geneve_opts;
  slots =
      update_slot_fields
        (try_update_inner_ip (update_slot_fields w.slots slot (replaced opts p)) slot current
          p.inner_ip).1
        slot up;
}

final-IsRaised :
    (opts : PortUpOptions) (p : Prepared) (slot : ℕ) (w : World)
    → is_slot_allocated (get_inner_ip w.slots slot) ≡ true
    → (w.slots.items slot).flags % 2 ≢ 1
    → is_slot_allocated p.inner_ip ≡ true
    → IsRaised opts p slot w (final opts p slot (get_inner_ip w.slots slot) w)
unfolding try_update_inner_ip get_inner_ip update_slot_fields
final-IsRaised opts p slot w a d b = record {
  was_allocated = ground arith;
  was_down = d;
  item = ground arith;
  value = ground arith;
  same = record { others = λ j ne. ground arith; bound = ground arith };
  options = λ j ne. ground arith;
  stats = refl;
}

replaced_owner :
    (opts : PortUpOptions) (p : Prepared) (m : MmappedSlots) (slot : ℕ)
    → get_inner_ip (update_slot_fields m slot (replaced opts p)) slot ≡ get_inner_ip m slot
unfolding get_inner_ip update_slot_fields
replaced_owner opts p m slot = ground arith

updated_owner :
    (m : MmappedSlots) (slot current new : ℕ)
    → get_inner_ip m slot ≡ current
    → is_slot_allocated current ≡ true
    → is_slot_allocated new ≡ true
    → get_inner_ip (try_update_inner_ip m slot current new).1 slot ≡ new
unfolding try_update_inner_ip get_inner_ip
updated_owner m slot current new e a b = ground arith

module _ (opts : PortUpOptions) (p : Prepared) (slot : ℕ) (w : World) where
  abbrev owner_before : ℕ
  owner_before = get_inner_ip w.slots slot

  abbrev replaced_world : World
  replaced_world = (replace_transit opts p slot (put_options slot p.value w)).1

  abbrev updated_world : World
  updated_world = record replaced_world {
    slots = (try_update_inner_ip replaced_world.slots slot owner_before p.inner_ip).1;
  }

  -- The writes after the last look at the old owner.
  publish-IsRaised :
      (k : Kernel)
      → IsQuiet k
      → is_slot_allocated owner_before ≡ true
      → (w.slots.items slot).flags % 2 ≢ 1
      → is_slot_allocated p.inner_ip ≡ true
      → Post
          (λ _. IsRaised opts p slot w)
          (λ v. v ≡ w)
          (then_do (update_owner slot owner_before p.inner_ip replaced_world) (λ _ v.
            then_do
              (check_owner slot p.inner_ip (k.others verify_owner v))
              (λ _ u. raise slot (k.others publish u))))
  publish-IsRaised k q a d b =
      let kept = replaced_owner opts p w.slots slot in
      let new = updated_owner replaced_world.slots slot owner_before p.inner_ip kept a b in
      rw
        (
          update_owner_wins slot owner_before p.inner_ip replaced_world kept a b,
          q verify_owner updated_world,
          check_owner_same slot p.inner_ip updated_world new,
          q publish updated_world,
        )
        (final-IsRaised opts p slot w a d b)

  write_geneve_opts-Post :
      (k : Kernel)
      → Post
          (λ _ v. v ≡ put_options slot p.value w)
          (λ v. v ≡ w)
          (write_geneve_opts k slot p.value w)
  unfolding write_geneve_opts
  write_geneve_opts-Post k = elim (Bool-cases k.options_update_fails) [
    | inl e ↦ rw e refl
    | inr e ↦ rw e refl
  ]

  pub commit-IsRaised :
      (k : Kernel) (s : SwitchContext)
      → IsQuiet k
      → is_slot_allocated owner_before ≡ true
      → (w.slots.items slot).flags % 2 ≢ 1
      → is_slot_allocated p.inner_ip ≡ true
      → Post
          (λ _. IsRaised opts p slot w)
          (λ v. v ≡ w)
          (commit_port_up k s opts p slot owner_before w)
  unfolding commit_port_up
  commit-IsRaised k s q a d b = rw (q check_mtu w) (
      Post-then (λ _ v. v ≡ w) (λ _. IsRaised opts p slot w) (λ v. v ≡ w) _ _
        (check_slot_mtu-same k s slot p.total_len w)
        λ _ w1 e1.
          rw (e1, q recheck w, check_owner_same slot owner_before w refl, q update_options w)
            (Post-then (λ _ v. v ≡ put_options slot p.value w) (λ _. IsRaised opts p slot w)
              (λ v. v ≡ w) _ _ (write_geneve_opts-Post k)
              λ _ w2 e2.
                rw
                  (
                    e2,
                    q recheck_again (put_options slot p.value w),
                    check_owner_same slot owner_before (put_options slot p.value w) refl,
                    q commit replaced_world,
                  )
                  (publish-IsRaised k q a d b)))
