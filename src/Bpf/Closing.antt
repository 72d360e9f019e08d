-- ===== src/Bpf/Closing.antt =====
-- Closing the maps of a switch: `Maps.Close` of pkg/internal/bpf/loader.go.
use connector.Base.{ℕ, ◌≡◌, refl, ap, sym, ◌∙◌, Option, none, some, List, [], ◌∷◌, ok, arith}
use connector.Bpf.{open_map, Objects, Maps, without, close_map, close_maps, close_field, close}
use mathlib.Core.List.{append-nil}
use connector.Bpf.Balance.{Older, without-append, Holds, closed_all, field_handles, handles}

without_comm : (g h : ℕ) (xs : List ℕ) → without g (without h xs) ≡ without h (without g xs)
without_comm g h [] = refl
without_comm g h (x ∷ xs) = ground (arith, without_comm g h xs)

close_swap :
    (a b : Option ℕ) (s : Objects)
    → close_field a (close_field b s) ≡ close_field b (close_field a s)
close_swap none b s = refl
close_swap (some g) none s = refl
close_swap (some g) (some h) s = ap (λ l. record s { live = l }) (without_comm g h s.live)

close_field-handles :
    (o : Option ℕ) (hs : List ℕ) (s : Objects)
    → close_maps (field_handles o hs) s ≡ close_maps hs (close_field o s)
close_field-handles none hs s = refl
close_field-handles (some h) hs s = refl

-- The order in which the maps are closed is not the one in which they were opened.
close-handles : (m : Maps) (s : Objects) → close_maps (handles (ok m)) s ≡ close m s
unfolding close
close-handles m s =
    rw
      (
        close_field-handles, close_field-handles, close_field-handles, close_field-handles,
        close_field-handles, close_field-handles, close_field-handles, close_field-handles,
      )
      (close_swap m.geneve_opts m.mgmt_svc_rev _
        ∙ ap (close_field m.mgmt_svc_rev) (
            close_swap m.geneve_opts m.mgmt_svc_fwd _
            ∙ ap (close_field m.mgmt_svc_fwd) (close_swap m.geneve_opts m.metadata _)))

-- Closing the maps that were opened leaves what was open before.
pub close-Holds :
    (n : ℕ) (before : List ℕ) (m : Maps) (s : Objects)
    → Holds n before (handles (ok m)) s
    → (close m s).live ≡ before
close-Holds n before m s o =
    sym (ap (λ t. t.live) (close-handles m s)) ∙ closed_all n before (handles (ok m)) s o

-- A map that is opened and closed leaves nothing.
pub close_map-open_map :
    (s : Objects) → Older s.made s.live → (close_map s.made (open_map s)).live ≡ s.live
close_map-open_map s old =
    without-append s.made s.made s.live [] (omega arith) old ∙ append-nil s.live
