-- ===== src/Netlink/Veth/Raised.antt =====
-- What the creation of veth pairs leaves in the namespaces.
use connector.Base.{
  ◌≡◌, refl, ap, ◌∙◌, Bool, true, false, not, ◌&&◌, ◌||◌, some, List, [], ◌∷◌, All, Bytes,
  bytes_eq_refl, arith, if◌then◌else◌, Bool-cases, inl, inr, ok, err,
}
use connector.Netlink.{LinkDevice, Devices, raise_link, exists, wanted_mac}
use connector.Netlink.Places.{exists-some}
use connector.Netlink.Grows.{Grows, raise_link-up}
use connector.Netlink.Veth.{
  Spaces, VethSpec, VethAnswers, VethError, Pairing, new_peer, put_peer, name_taken, add_pair,
  set_link_up_by_name, raise_near, raise_peer, create_one, create_next, create_veth_pairs,
  lookup_failed, up_failed, peer_lookup_failed, peer_up_failed,
}
use connector.Netlink.Veth.Grown.{
  SpacesGrow, Grown, create_veth_pairs-Grown, set_link_up_by_name-Grown,
}

-- A device of the name is there and up.
abbrev pub Up : Bytes → Devices → Type 0
Up name ds = (d : LinkDevice) × (ds name ≡ some d) × (d.up ≡ true)

Up-Grows : (name : Bytes) (ds es : Devices) → Grows ds es → Up name ds → Up name es
Up-Grows name ds es g (d, is, up) = let (e, there, stays) = g name d is in (e, there, stays.up up)

-- The peer is up where it is near; elsewhere it has the address that was asked for.
abbrev pub PeerMade : (elsewhere : Bool) → VethSpec → VethAnswers → Spaces → Type 0
PeerMade true spec k s =
    (d : LinkDevice) × (s.there spec.peer_name ≡ some d)
    × (d.mac ≡ wanted_mac spec.peer_mac k.picked_peer_mac)
PeerMade false spec k s = Up spec.peer_name s.here

pub record IsMade (spec : VethSpec) (k : VethAnswers) (s : Spaces) : Type 0 where
  pub end_up : Up spec.name s.here
  pub peer : PeerMade spec.elsewhere spec k s

PeerMade-Grow :
    (away : Bool) (spec : VethSpec) (k : VethAnswers) (s t : Spaces)
    → SpacesGrow s t
    → PeerMade away spec k s
    → PeerMade away spec k t
PeerMade-Grow true spec k s t g (d, is, mac) =
    let (e, there, stays) = g.there spec.peer_name d is in (e, there, stays.mac ∙ mac)
PeerMade-Grow false spec k s t g up = Up-Grows spec.peer_name s.here t.here g.here up

IsMade-Grow :
    (spec : VethSpec) (k : VethAnswers) (s t : Spaces)
    → SpacesGrow s t
    → IsMade spec k s
    → IsMade spec k t
IsMade-Grow spec k s t g m = record {
  end_up = Up-Grows spec.name s.here t.here g.here m.end_up;
  peer = PeerMade-Grow spec.elsewhere spec k s t g m.peer;
}

-- A property of the state where the step succeeds.
abbrev pub OnOk : (Spaces → Type 0) → Pairing → Type 0
OnOk P (ok _, s) = P s
OnOk P (err e, s) = Unit

set_link_up_by_name-Up :
    (name : Bytes) (lookup set_up : Bool) (unknown down : VethError) (s : Spaces)
    → OnOk
        (λ t. Up name t.here × (t.there ≡ s.there))
        (set_link_up_by_name name lookup set_up unknown down s)
set_link_up_by_name-Up name lookup set_up unknown down s =
    by_answers (lookup && exists name s.here) set_up refl
  where
    by_answers :
        (known raised : Bool)
        → (lookup && exists name s.here) ≡ known
        → OnOk
            (λ t. Up name t.here × (t.there ≡ s.there))
            (if not known
              then (err unknown, s)
              else if raised
              then (ok tt, record s { here = raise_link name s.here })
              else (err down, s))
    by_answers false raised h = tt
    by_answers true true h =
        let (d, is) = exists-some name s.here (ground (arith, h)) in
        ((record d { up = true }, raise_link-up name d s.here is, refl), refl)
    by_answers true false h = tt

add_pair-there :
    (away : Bool) (peer : Bytes) (d : LinkDevice) (s : Spaces)
    → away ≡ true
    → (put_peer away peer d s).there peer ≡ some d
add_pair-there true peer d s _ = rw (bytes_eq_refl peer) refl
add_pair-there false peer d s h = cc

-- Behind the raising of the first end.
raise_near-Made :
    (away : Bool) (spec : VethSpec) (k : VethAnswers) (s : Spaces)
    → spec.elsewhere ≡ away
    → Up spec.name s.here
    → (away ≡ true → s.there spec.peer_name ≡ some (new_peer spec k))
    → OnOk (λ t. Up spec.name t.here × PeerMade away spec k t) (raise_near away spec k s)
raise_near-Made true spec k s is up peer = (up, (new_peer spec k, peer refl, refl))
raise_near-Made false spec k s is up peer =
    by_raise
      (set_link_up_by_name spec.peer_name k.peer_lookup k.peer_set_up peer_lookup_failed
        peer_up_failed s)
      (set_link_up_by_name-Up spec.peer_name k.peer_lookup k.peer_set_up peer_lookup_failed
        peer_up_failed s)
      (set_link_up_by_name-Grown spec.peer_name k.peer_lookup k.peer_set_up peer_lookup_failed
        peer_up_failed s)
  where
    by_raise :
        (p : Pairing)
        → OnOk (λ t. Up spec.peer_name t.here × (t.there ≡ s.there)) p
        → Grown s p
        → OnOk (λ t. Up spec.name t.here × Up spec.peer_name t.here) p
    by_raise (ok _, t) (peer_up, _) g = (Up-Grows spec.name s.here t.here g.here up, peer_up)
    by_raise (err e, t) h g = tt

both-IsMade :
    (spec : VethSpec) (k : VethAnswers) (p : Pairing)
    → OnOk (λ t. Up spec.name t.here × PeerMade spec.elsewhere spec k t) p
    → OnOk (IsMade spec k) p
both-IsMade spec k (ok _, t) (up, peer) = record { end_up = up; peer = peer }
both-IsMade spec k (err e, t) h = tt

raise_peer-Made :
    (spec : VethSpec) (k : VethAnswers) (s : Spaces) (p : Pairing)
    → OnOk (λ t. Up spec.name t.here × (t.there ≡ (add_pair spec k s).there)) p
    → OnOk (IsMade spec k) (raise_peer spec k p)
raise_peer-Made spec k s (err e, t) h = tt
raise_peer-Made spec k s (ok _, t) (up, same) = both-IsMade spec k _ (
    raise_near-Made spec.elsewhere spec k t refl up λ away.
      ap (λ f. f spec.peer_name) same
      ∙ add_pair-there spec.elsewhere spec.peer_name (new_peer spec k) s away)

create_one-Made :
    (spec : VethSpec) (k : VethAnswers) (s : Spaces) → OnOk (IsMade spec k) (create_one spec k s)
create_one-Made spec k s = elim (Bool-cases (name_taken spec s || not k.add)) [
  | inl refused ↦ rw refused tt
  | inr goes ↦ rw goes (
      raise_peer-Made spec k s _ (
        set_link_up_by_name-Up spec.name k.lookup k.set_up lookup_failed up_failed
          (add_pair spec k s)))
]

abbrev pub AllMade : List (VethSpec × VethAnswers) → Spaces → Type 0
AllMade specs t = All (λ (q : VethSpec × VethAnswers). IsMade q.0 q.1 t) specs

-- Where the call succeeds every pair that it was given is made, whichever namespace its peer is in.
pub create_veth_pairs-Made :
    (specs : List (VethSpec × VethAnswers)) (s : Spaces)
    → OnOk (AllMade specs) (create_veth_pairs specs s)
unfolding create_veth_pairs
create_veth_pairs-Made [] s = tt
create_veth_pairs-Made ((spec, k) ∷ rest) s =
    by_first (create_one spec k s) (create_one-Made spec k s) (create_veth_pairs-Made rest)
      (create_veth_pairs-Grown rest)
  where
    onto :
        (t : Spaces) (p : Pairing)
        → IsMade spec k t
        → OnOk (AllMade rest) p
        → Grown t p
        → OnOk (λ u. IsMade spec k u × AllMade rest u) p
    onto t (ok _, u) made rests g = (IsMade-Grow spec k t u g made, rests)
    onto t (err e, u) made rests g = tt

    by_first :
        (p : Pairing)
        → OnOk (IsMade spec k) p
        → ((t : Spaces) → OnOk (AllMade rest) (create_veth_pairs rest t))
        → ((t : Spaces) → Grown t (create_veth_pairs rest t))
        → OnOk (λ u. IsMade spec k u × AllMade rest u) (create_next p (create_veth_pairs rest))
    by_first (ok _, t) made rests grows = onto t (create_veth_pairs rest t) made (rests t) (grows t)
    by_first (err e, t) made rests grows = tt
