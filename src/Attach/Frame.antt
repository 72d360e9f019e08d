-- ===== src/Attach/Frame.antt =====
-- A walk through the preparation of Attach (pkg/vswitch/attach.go): what each of its steps keeps,
-- the preparation keeps. `I` holds before the options are written and `J` after it, `C` after a
-- failure, and `O` after the last look at the owner.
use connector.Base.{ℕ, ◌≡◌, refl, Result, ok, err, arith, Bool-cases, inl, inr, ◌==◌, if◌then◌else◌}
use connector.Geneve.{GeneveOptsValue}
use connector.Switch.{
  World, Kernel, SwitchContext, SwitchError, Point, update_options, check_mtu, move_device, recheck,
}
use connector.Switch.Act.{Post, Post-then}
use connector.Attach.Options.{AttachOptions, Prepared}
use connector.Attach.Prepare.{
  prepare, prepare_kind, rollback_claim, check_owner, check_provisioned, check_options_mtu,
  write_geneve_opts, move_step, give_back,
}

abbrev pub put_options : ℕ → GeneveOptsValue → World → World
put_options slot value w = record w {
  geneve_opts = λ j. if j == slot then value else w.geneve_opts j;
}

give_back-Post :
    {A : Type 0} (slot ip : ℕ) (I C : World → Type 0) (r : Result SwitchError A × World) (w : World)
    → ((v : World) → I v → C (rollback_claim slot ip v))
    → r.1 ≡ w
    → I w
    → Post (λ _. I) C (give_back slot ip r)
give_back-Post slot ip I C (ok a, v) w drops e h = rw e h
give_back-Post slot ip I C (err x, v) w drops e h = rw e (drops w h)

check_provisioned-same : (slot : ℕ) (w : World) → (check_provisioned slot w).1 ≡ w
check_provisioned-same slot w = ground arith

check_options_mtu-same :
    (k : Kernel) (s : SwitchContext) (slot kind total : ℕ) (w : World)
    → (check_options_mtu k s slot kind total w).1 ≡ w
check_options_mtu-same k s slot kind total w = ground arith

write_geneve_opts-Post :
    (k : Kernel) (slot ip : ℕ) (value : GeneveOptsValue) (I J C : World → Type 0) (w : World)
    → ((v : World) → I v → C (rollback_claim slot ip v))
    → ((v : World) → I v → J (put_options slot value v))
    → I w
    → Post (λ _. J) C (give_back slot ip (write_geneve_opts k slot value w))
unfolding write_geneve_opts
write_geneve_opts-Post k slot ip value I J C w drops writes h =
    elim (Bool-cases k.options_update_fails) [
      | inl e ↦ rw e (drops w h)
      | inr e ↦ rw e (writes w h)
    ]

module _ (k : Kernel) (s : SwitchContext) (opts : AttachOptions) (slot : ℕ) (p : Prepared)
    (I J O C : World → Type 0) (keep_I : (q : Point) (w : World) → I w → I (k.others q w))
    (keep_J : (q : Point) (w : World) → J w → J (k.others q w))
    (drops_I : (w : World) → I w → C (rollback_claim slot p.inner_ip w))
    (drops_J : (w : World) → J w → C (rollback_claim slot p.inner_ip w))
    (writes : (w : World) → I w → J (put_options slot p.value w))
    (looks : (w : World) → J w → Post (λ _. O) C (check_owner slot p.inner_ip w)) where
  prepare_kind-Post :
      (kind : ℕ) (w : World) → I w → Post (λ _. O) C (prepare_kind k s opts slot p kind w)
  unfolding prepare_kind
  prepare_kind-Post kind w h =
      Post-then (λ _. I) (λ _. O) C _ _
        (give_back-Post slot p.inner_ip I C (check_provisioned slot w) w drops_I
          (check_provisioned-same slot w) h)
        λ _ w1 h1.
          Post-then (λ _. J) (λ _. O) C _ _
            (write_geneve_opts-Post k slot p.inner_ip p.value I J C (k.others update_options w1)
              drops_I writes (keep_I update_options w1 h1))
            λ _ w2 h2.
              Post-then (λ _. J) (λ _. O) C _ _
                (give_back-Post slot p.inner_ip J C
                  (check_options_mtu k s slot kind p.total_len (k.others check_mtu w2))
                  (k.others check_mtu w2) drops_J
                  (check_options_mtu-same k s slot kind p.total_len (k.others check_mtu w2))
                  (keep_J check_mtu w2 h2))
                λ _ w3 h3.
                  Post-then (λ _. J) (λ _. O) C _ _
                    (give_back-Post slot p.inner_ip J C
                      (move_step k s opts slot kind (k.others move_device w3))
                      (k.others move_device w3) drops_J refl (keep_J move_device w3 h3))
                    λ _ w4 h4. looks (k.others recheck w4) (keep_J recheck w4 h4)

  pub prepare-Post : (w : World) → I w → Post (λ _. O) C (prepare k s opts slot p w)
  unfolding prepare
  prepare-Post w h = prepare_kind-Post (w.slots.items slot).mode w h
