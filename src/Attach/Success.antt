-- ===== src/Attach/Success.antt =====
-- What Attach does when no other process interferes (pkg/vswitch/attach.go): the attachment that a
-- success leaves, and the claim that a failure gives back.
use connector.Base.{
  ℕ, ◌<◌, ◌≡◌, refl, ◌≢◌, Bool, true, false, Result, ok, err, arith, ◌==◌, if◌then◌else◌,
}
use connector.Ip.{ip_to_uint32, is_nil}
use connector.Slots.{SlotItem, inner_ip_free, update_slot_fields, get_inner_ip}
use connector.Slots.Cas.{try_release}
use connector.Slots.Laws.{SameBut, update_at, update_bound, update-SameBut}
use connector.Stats.{StatsManager, StatsError, reset_stats}
use connector.Switch.{World, Kernel, Point, reset_counters}
use connector.Switch.Act.{Post}
use connector.Attach.Options.{AttachOptions, Prepared}
use connector.Attach.Prepare.{suppress, rollback_claim, check_owner, transit_mac_of}
use connector.Attach.Publish.{publish, set_hint, hinted, set_ready, ready, up, port_f_up, set_up}
use connector.Attach.Claim.{IsClaimed}
use connector.Attach.Frame.{put_options}

abbrev pub IsQuiet : Kernel → Type 0
IsQuiet k = (p : Point) (w : World) → k.others p w ≡ w

abbrev gateway_of : AttachOptions → ℕ
gateway_of opts = if is_nil opts.transit_gateway_ip then 0 else ip_to_uint32 opts.transit_gateway_ip

-- The requested transit state.
pub record HasTransit (opts : AttachOptions) (i : SlotItem) : Type 0 where
  pub gateway : i.transit_gateway_ip ≡ gateway_of opts
  pub vni : i.transit_geneve_vni ≡ opts.transit_geneve_vni
  pub mac : i.transit_mac ≡ transit_mac_of opts.transit_mac

-- The slot is claimed and down; nothing else differs from the state `w0` before the operation.
pub record Held (opts : AttachOptions) (w0 : World) (slot ip : ℕ) (w : World) : Type 0 where
  pub range : slot < w.slots.num_slots
  pub owner : (w.slots.items slot).inner_ip ≡ ip
  pub down : (w.slots.items slot).flags ≡ 0
  pub transit : HasTransit opts (w.slots.items slot)
  pub same : SameBut slot w0.slots w.slots
  pub options : (j : ℕ) → j ≢ slot → w.geneve_opts j ≡ w0.geneve_opts j

-- And its options are written.
pub record HeldWith (opts : AttachOptions) (w0 : World) (slot : ℕ) (p : Prepared) (w : World)
    : Type 0 where
  pub held : Held opts w0 slot p.inner_ip w
  pub value : w.geneve_opts slot ≡ p.value

-- After a failure: the slot is Free and down again.
pub record IsReturned (w0 : World) (slot : ℕ) (w : World) : Type 0 where
  pub free : (w.slots.items slot).inner_ip ≡ inner_ip_free
  pub down : (w.slots.items slot).flags ≡ 0
  pub same : SameBut slot w0.slots w.slots

pub rollback-IsReturned :
    (opts : AttachOptions) (w0 : World) (slot ip : ℕ) (w : World)
    → Held opts w0 slot ip w
    → IsReturned w0 slot (rollback_claim slot ip w)
unfolding rollback_claim try_release
rollback-IsReturned opts w0 slot ip w h = record {
  free = ground arith;
  down = ground arith;
  same = record {
    others = λ j ne. ground (arith, h.same.others j ne);
    bound = ground (arith, h.same.bound);
  };
}

pub writes-HeldWith :
    (opts : AttachOptions) (w0 : World) (slot : ℕ) (p : Prepared) (w : World)
    → Held opts w0 slot p.inner_ip w
    → HeldWith opts w0 slot p (put_options slot p.value w)
writes-HeldWith opts w0 slot p w h = record {
  held = record {
    range = h.range;
    owner = h.owner;
    down = h.down;
    transit = h.transit;
    same = h.same;
    options = λ j ne. ground (arith, h.options j ne);
  };
  value = ground arith;
}

-- The owner is still there, so the last look succeeds.
pub looks-HeldWith :
    (opts : AttachOptions) (w0 : World) (slot : ℕ) (p : Prepared) (w : World)
    → HeldWith opts w0 slot p w
    → Post (λ _. HeldWith opts w0 slot p) (IsReturned w0 slot) (check_owner slot p.inner_ip w)
unfolding get_inner_ip
looks-HeldWith opts w0 slot p w h =
    let e : (get_inner_ip w.slots slot == p.inner_ip) ≡ true =
      ground (arith, h.held.range, h.held.owner) in
    rw e h

pub suppress-Held :
    (opts : AttachOptions) (w0 w : World) (slot ip : ℕ)
    → IsClaimed w0 ip slot w
    → Held opts w0 slot ip (suppress opts slot w).1
unfolding suppress update_slot_fields
suppress-Held opts w0 w slot ip c = record {
  range = ground (arith, c.same.bound, c.range);
  owner = ground (arith, c.same.bound, c.range, c.item);
  down = ground (arith, c.same.bound, c.range);
  transit = record {
    gateway = ground (arith, c.same.bound, c.range);
    vni = ground (arith, c.same.bound, c.range);
    mac = ground (arith, c.same.bound, c.range);
  };
  same = record {
    others = λ j ne. ground (arith, c.same.others j ne);
    bound = ground (arith, c.same.bound);
  };
  options = λ j ne. ground (arith, c.options);
}

-- The hint and the generation are written too.
record Hinted (opts : AttachOptions) (w0 : World) (slot : ℕ) (p : Prepared) (w : World)
    : Type 0 where
  with_options : HeldWith opts w0 slot p w
  hint : (w.slots.items slot).geneve_opts_len ≡ p.value.len
  generation : (w.slots.items slot).generation ≡ opts.generation

-- The attachment that a success leaves in slot `slot`; the rest of the slots and of the options is
-- as it was in `w0`.
pub record IsAttached (opts : AttachOptions) (w0 : World) (slot : ℕ) (p : Prepared) (w : World)
    : Type 0 where
  pub range : slot < w.slots.num_slots
  pub owner : (w.slots.items slot).inner_ip ≡ p.inner_ip
  pub published : (w.slots.items slot).flags ≡ (if opts.admin_down then 0 else port_f_up)
  pub generation : (w.slots.items slot).generation ≡ opts.generation
  pub transit : HasTransit opts (w.slots.items slot)
  pub hint : (w.slots.items slot).geneve_opts_len ≡ p.value.len
  pub value : w.geneve_opts slot ≡ p.value
  pub same : SameBut slot w0.slots w.slots
  pub options : (j : ℕ) → j ≢ slot → w.geneve_opts j ≡ w0.geneve_opts j

module _ (opts : AttachOptions) (w0 : World) (slot : ℕ) (p : Prepared) where
  -- An update of the slot alone that keeps what `Held` speaks of.
  update-HeldWith :
      (w : World) (f : SlotItem → SlotItem) (sm : StatsManager)
      → ((i : SlotItem) → (f i).inner_ip ≡ i.inner_ip)
      → ((i : SlotItem) → (f i).flags ≡ i.flags)
      → ((i : SlotItem) → HasTransit opts i → HasTransit opts (f i))
      → HeldWith opts w0 slot p w
      → HeldWith opts w0 slot p (record w { slots = update_slot_fields w.slots slot f; stats = sm })
  update-HeldWith w f sm keep_ip keep_flags keep_transit h =
      let at = update_at w.slots slot f h.held.range in
      record {
        held = record {
          range = rw (update_bound w.slots slot f) h.held.range;
          owner = rw (at, keep_ip (w.slots.items slot)) h.held.owner;
          down = rw (at, keep_flags (w.slots.items slot)) h.held.down;
          transit = rw at (keep_transit (w.slots.items slot) h.held.transit);
          same = update-SameBut w0.slots w.slots slot f h.held.same;
          options = h.held.options;
        };
        value = h.value;
      }

  set_hint-Hinted :
      (w : World) → HeldWith opts w0 slot p w → Hinted opts w0 slot p (set_hint opts p slot w).1
  set_hint-Hinted w h =
      let at = update_at w.slots slot (hinted opts p) h.held.range in
      record {
        with_options =
            update-HeldWith w (hinted opts p) w.stats (λ i. refl) (λ i. refl)
              (λ i t. record { gateway = t.gateway; vni = t.vni; mac = t.mac }) h;
        hint = rw at refl;
        generation = rw at refl;
      }

  set_ready-Hinted :
      (w : World) (r : Result StatsError StatsManager)
      → Hinted opts w0 slot p w
      → Hinted opts w0 slot p (set_ready r slot w)
  set_ready-Hinted w (err _) h = h
  set_ready-Hinted w (ok sm) h =
      let at = update_at w.slots slot ready h.with_options.held.range in
      record {
        with_options =
            update-HeldWith w ready sm (λ i. refl) (λ i. refl)
              (λ i t. record { gateway = t.gateway; vni = t.vni; mac = t.mac }) h.with_options;
        hint = rw at h.hint;
        generation = rw at h.generation;
      }

  stay-IsAttached :
      (w : World) → opts.admin_down ≡ true → Hinted opts w0 slot p w → IsAttached opts w0 slot p w
  stay-IsAttached w e h =
      let d = h.with_options.held in
      record {
        range = d.range;
        owner = d.owner;
        published = rw e d.down;
        generation = h.generation;
        transit = d.transit;
        hint = h.hint;
        value = h.with_options.value;
        same = d.same;
        options = d.options;
      }

  up-IsAttached :
      (w : World)
      → opts.admin_down ≡ false
      → Hinted opts w0 slot p w
      → IsAttached opts w0 slot p (record w { slots = update_slot_fields w.slots slot up })
  up-IsAttached w e h =
      let d = h.with_options.held in
      let at = update_at w.slots slot up d.range in
      record {
        range = rw (update_bound w.slots slot up) d.range;
        owner = rw at d.owner;
        published = rw (at, e) refl;
        generation = rw at h.generation;
        transit =
            rw at
              (record { gateway = d.transit.gateway; vni = d.transit.vni; mac = d.transit.mac });
        hint = rw at h.hint;
        value = h.with_options.value;
        same = update-SameBut w0.slots w.slots slot up d.same;
        options = d.options;
      }

  set_up-IsAttached :
      (w : World) (b : Bool)
      → opts.admin_down ≡ b
      → Hinted opts w0 slot p w
      → Post (λ _. IsAttached opts w0 slot p) (IsReturned w0 slot) (set_up b slot w)
  set_up-IsAttached w true e h = stay-IsAttached w e h
  set_up-IsAttached w false e h = up-IsAttached w e h

  pub publish-IsAttached :
      (k : Kernel) (w : World)
      → IsQuiet k
      → HeldWith opts w0 slot p w
      → Post (λ _. IsAttached opts w0 slot p) (IsReturned w0 slot) (publish k opts p slot w)
  unfolding publish
  publish-IsAttached k w q h =
      let hinted_world = (set_hint opts p slot w).1 in
      let ready_world = set_ready (reset_stats hinted_world.stats slot) slot hinted_world in
      let done =
        set_ready-Hinted hinted_world (reset_stats hinted_world.stats slot) (set_hint-Hinted w h) in
      rw (q reset_counters hinted_world) (set_up-IsAttached ready_world opts.admin_down refl done)
