-- ===== src/Netlink/Veth/Grown.antt =====
-- The creation of veth pairs takes no device away.
use connector.Base.{
  ◌≡◌, Bool, true, false, not, ◌&&◌, ◌||◌, List, [], ◌∷◌, Bytes, bytes_eq, arith, if◌then◌else◌,
  Bool-cases, inl, inr, ok, err,
}
use connector.Netlink.{LinkDevice, raise_link, exists}
use connector.Netlink.Grows.{Grows, Grows-refl, Grows-trans, put-Grows, raise_link-Grows}
use connector.Netlink.Veth.{
  peer_lookup_failed, peer_up_failed, lookup_failed, up_failed, peer_taken, raise_near, Spaces,
  VethSpec, VethAnswers, VethError, Pairing, new_end, new_peer, put_peer, name_taken, add_pair,
  set_link_up_by_name, raise_peer, create_one, create_next, create_veth_pairs,
}

or_false : (a b : Bool) → (a || b) ≡ false → (a ≡ false) × (b ≡ false)
or_false a b h = ground (arith, h)

pub record SpacesGrow (s t : Spaces) : Type 0 where
  pub here : Grows s.here t.here
  pub there : Grows s.there t.there

SpacesGrow-refl : (s : Spaces) → SpacesGrow s s
SpacesGrow-refl s = record { here = Grows-refl s.here; there = Grows-refl s.there }

SpacesGrow-trans : (s t u : Spaces) → SpacesGrow s t → SpacesGrow t u → SpacesGrow s u
SpacesGrow-trans s t u g h = record {
  here = Grows-trans s.here t.here u.here g.here h.here;
  there = Grows-trans s.there t.there u.there g.there h.there;
}

-- What a step of the creation may do to the devices that are there.
abbrev pub Grown : Spaces → Pairing → Type 0
Grown s p = SpacesGrow s p.1

pub set_link_up_by_name-Grown :
    (name : Bytes) (lookup set_up : Bool) (unknown down : VethError) (s : Spaces)
    → Grown s (set_link_up_by_name name lookup set_up unknown down s)
set_link_up_by_name-Grown name lookup set_up unknown down s =
    by_answers (lookup && exists name s.here) set_up
  where
    by_answers :
        (known raised : Bool)
        → Grown s (
            if not known
            then (err unknown, s)
            else if raised
            then (ok tt, record s { here = raise_link name s.here })
            else (err down, s))
    by_answers false raised = SpacesGrow-refl s
    by_answers true true = record {
      here = raise_link-Grows name s.here;
      there = Grows-refl s.there;
    }
    by_answers true false = SpacesGrow-refl s

raise_peer-Grown :
    (spec : VethSpec) (k : VethAnswers) (s : Spaces) (p : Pairing)
    → Grown s p
    → Grown s (raise_peer spec k p)
raise_peer-Grown spec k s (err e, t) g = g
raise_peer-Grown spec k s (ok _, t) g = SpacesGrow-trans s t _ g (near spec.elsewhere)
  where
    near : (away : Bool) → Grown t (raise_near away spec k t)
    near true = SpacesGrow-refl t
    near false =
        set_link_up_by_name-Grown spec.peer_name k.peer_lookup k.peer_set_up peer_lookup_failed
          peer_up_failed t

put_peer-Grow :
    (away : Bool) (name peer : Bytes) (d : LinkDevice) (s : Spaces)
    → peer_taken away name peer s ≡ false
    → SpacesGrow s (put_peer away peer d s)
put_peer-Grow true name peer d s free = record {
  here = Grows-refl s.here;
  there = put-Grows peer d s.there free;
}
put_peer-Grow false name peer d s free = record {
  here = put-Grows peer d s.here (ground (arith, free));
  there = Grows-refl s.there;
}

put_peer-fresh :
    (away : Bool) (name peer : Bytes) (d : LinkDevice) (s : Spaces)
    → exists name s.here ≡ false
    → peer_taken away name peer s ≡ false
    → exists name (put_peer away peer d s).here ≡ false
put_peer-fresh true name peer d s fresh free = fresh
put_peer-fresh false name peer d s fresh free =
    rw ((or_false (exists peer s.here) (bytes_eq name peer) free).1, exists) fresh

add_pair-Grow :
    (spec : VethSpec) (k : VethAnswers) (s : Spaces)
    → name_taken spec s ≡ false
    → SpacesGrow s (add_pair spec k s)
add_pair-Grow spec k s free =
    let t = put_peer spec.elsewhere spec.peer_name (new_peer spec k) s in
    let (fresh, peer_free) = or_false (exists spec.name s.here) _ free in
    SpacesGrow-trans s t (add_pair spec k s)
      (put_peer-Grow spec.elsewhere spec.name spec.peer_name (new_peer spec k) s peer_free)
      (record {
        here = put-Grows spec.name (new_end spec k) t.here (
            put_peer-fresh spec.elsewhere spec.name spec.peer_name (new_peer spec k) s fresh
              peer_free);
        there = Grows-refl t.there;
      })

create_one-Grown : (spec : VethSpec) (k : VethAnswers) (s : Spaces) → Grown s (create_one spec k s)
create_one-Grown spec k s = elim (Bool-cases (name_taken spec s || not k.add)) [
  | inl refused ↦ rw refused (SpacesGrow-refl s)
  | inr goes ↦
      let free = (or_false (name_taken spec s) (not k.add) goes).0 in
      rw goes (
        raise_peer-Grown spec k s _ (
          SpacesGrow-trans s (add_pair spec k s) _ (add_pair-Grow spec k s free) (
            set_link_up_by_name-Grown spec.name k.lookup k.set_up lookup_failed up_failed
              (add_pair spec k s))))
]

pub create_veth_pairs-Grown :
    (specs : List (VethSpec × VethAnswers)) (s : Spaces) → Grown s (create_veth_pairs specs s)
unfolding create_veth_pairs
create_veth_pairs-Grown [] s = SpacesGrow-refl s
create_veth_pairs-Grown ((spec, k) ∷ rest) s =
    by_first (create_one spec k s) (create_one-Grown spec k s) (create_veth_pairs-Grown rest)
  where
    by_first :
        (p : Pairing)
        → Grown s p
        → ((t : Spaces) → Grown t (create_veth_pairs rest t))
        → Grown s (create_next p (create_veth_pairs rest))
    by_first (ok _, t) g next = SpacesGrow-trans s t _ g (next t)
    by_first (err e, t) g next = g
