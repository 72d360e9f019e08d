-- ===== src/Netlink/Veth.antt =====
-- Veth pairs and single links: pkg/netlink/veth.go and batch.go. A pair's two ends stand in the
-- caller's namespace, or the peer in another one.
pub mod Grown
pub mod Raised
use connector.Base.{
  ℕ, Bool, true, false, not, ◌&&◌, ◌||◌, Option, none, some, Bytes, bytes_eq, List, [], ◌∷◌, Result,
  ok, err, if◌then◌else◌,
}
use connector.Netlink.{
  LinkDevice, Devices, put, remove, exists, raise_link, set_mac, wanted, wanted_mac, veth,
}

-- `there` is the peer's namespace where it is another one.
pub record Spaces : Type 0 where
  pub here : Devices
  pub there : Devices

-- `elsewhere` is `PeerNsFd > 0`, and a descriptor is not negative; 0 leaves the MTU or the group open.
pub record VethSpec : Type 0 where
  pub name : Bytes
  pub peer_name : Bytes
  pub mtu : ℕ
  pub elsewhere : Bool
  pub peer_mac : Option Bytes
  pub group : ℕ

-- What the kernel answers about one pair: the creation, the lookup and raising of each end, and the
-- deletion; and what it picks.
pub record VethAnswers : Type 0 where
  pub add : Bool
  pub index : ℕ
  pub peer_index : ℕ
  pub picked_mac : Bytes
  pub picked_peer_mac : Bytes
  pub picked_mtu : ℕ
  pub lookup : Bool
  pub set_up : Bool
  pub peer_lookup : Bool
  pub peer_set_up : Bool
  pub delete : Bool

pub data VethError : Type 0 where
  create_failed lookup_failed up_failed peer_lookup_failed peer_up_failed : VethError

abbrev pub Pairing : Type 0
Pairing = Result VethError (Unit {0}) × Spaces

abbrev pub new_end : VethSpec → VethAnswers → LinkDevice
new_end spec k = record {
  kind = veth;
  index = k.index;
  up = false;
  mac = k.picked_mac;
  mtu = wanted spec.mtu k.picked_mtu;
  group = wanted spec.group 0;
}

abbrev pub new_peer : VethSpec → VethAnswers → LinkDevice
new_peer spec k = record {
  kind = veth;
  index = k.peer_index;
  up = false;
  mac = wanted_mac spec.peer_mac k.picked_peer_mac;
  mtu = wanted spec.mtu k.picked_mtu;
  group = 0;
}

abbrev put_peer : (elsewhere : Bool) → Bytes → LinkDevice → Spaces → Spaces
put_peer true name d s = record s { there = put name d s.there }
put_peer false name d s = record s { here = put name d s.here }

-- The kernel refuses a name that is taken, and twice the same name.
abbrev peer_taken : (elsewhere : Bool) → Bytes → Bytes → Spaces → Bool
peer_taken true name peer s = exists peer s.there
peer_taken false name peer s = exists peer s.here || bytes_eq name peer

abbrev name_taken : VethSpec → Spaces → Bool
name_taken spec s = exists spec.name s.here || peer_taken spec.elsewhere spec.name spec.peer_name s

-- `LinkAdd` of the pair, where it succeeds.
abbrev add_pair : VethSpec → VethAnswers → Spaces → Spaces
add_pair spec k s =
    let t = put_peer spec.elsewhere spec.peer_name (new_peer spec k) s in
    record t { here = put spec.name (new_end spec k) t.here }

-- `setLinkUpByName`.
abbrev pub set_link_up_by_name :
    Bytes → (lookup set_up : Bool) → (unknown down : VethError) → Spaces → Pairing
set_link_up_by_name name lookup set_up unknown down s =
    if not (lookup && exists name s.here)
    then (err unknown, s)
    else if set_up
    then (ok tt, record s { here = raise_link name s.here })
    else (err down, s)

-- The peer is raised only in the caller's namespace.
abbrev raise_near : (elsewhere : Bool) → VethSpec → VethAnswers → Spaces → Pairing
raise_near true spec k s = (ok tt, s)
raise_near false spec k s =
    set_link_up_by_name spec.peer_name k.peer_lookup k.peer_set_up peer_lookup_failed peer_up_failed
      s

abbrev raise_peer : VethSpec → VethAnswers → Pairing → Pairing
raise_peer spec k (err e, s) = (err e, s)
raise_peer spec k (ok _, s) = raise_near spec.elsewhere spec k s

-- One round of `CreateVethPairs`; nothing is taken back.
abbrev pub create_one : VethSpec → VethAnswers → Spaces → Pairing
create_one spec k s =
    if name_taken spec s || not k.add
    then (err create_failed, s)
    else raise_peer spec k (
        set_link_up_by_name spec.name k.lookup k.set_up lookup_failed up_failed (add_pair spec k s))

abbrev create_next : Pairing → (Spaces → Pairing) → Pairing
create_next (ok _, s) rest = rest s
create_next (err e, s) rest = (err e, s)

-- Each spec with the answers about it.
unfoldable pub create_veth_pairs : List (VethSpec × VethAnswers) → Spaces → Pairing
create_veth_pairs [] s = (ok tt, s)
create_veth_pairs ((spec, k) ∷ rest) s = create_next (create_one spec k s) (create_veth_pairs rest)

-- `CreateVethPair`: both ends in one namespace, and deleted where one cannot be raised.
abbrev pair_spec : Bytes → Bytes → VethSpec
pair_spec name peer = record {
  name = name;
  peer_name = peer;
  mtu = 0;
  elsewhere = false;
  peer_mac = none;
  group = 0;
}

abbrev undo_pair : Bytes → Bytes → VethAnswers → Pairing → Pairing
undo_pair name peer k (ok _, s) = (ok tt, s)
undo_pair name peer k (err e, s) =
    (err e, if k.delete then record s { here = remove peer (remove name s.here) } else s)

unfoldable pub create_veth_pair : Bytes → Bytes → VethAnswers → Spaces → Pairing
create_veth_pair name peer k s =
    let spec = pair_spec name peer in
    if name_taken spec s || not k.add
    then (err create_failed, s)
    else undo_pair name peer k (
        raise_peer spec k
          (set_link_up_by_name name k.lookup k.set_up lookup_failed up_failed (add_pair spec k s)))
