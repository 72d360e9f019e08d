-- ===== src/Provision/Slot.antt =====
-- Provisioning one slot (pkg/vswitch/provision.go): what it leaves in the slot and in the reverse map.
use connector.Base.{
  ℕ, ◌<◌, ◌≡◌, refl, ◌⊎◌, inl, inr, Bool, not, ◌&&◌, Option, List, [], ◌∷◌, Result, ok, err, ◌==◌,
  Bytes, u32, arith, Bool-cases, ◌∙◌,
}
use connector.Slots.{
  MmappedSlots, SlotItem, MgmtCidr, inner_ip_free, inner_ip_reserved, update_slot_fields,
}
use connector.Slots.Cas.{try_unreserve}
use connector.Slots.Laws.{SameBut}
use connector.Provision.{
  ProvisionError, Provisioned, ProvisionAnswers, SlotInfo, store_cidr, store_cidrs, store_planes,
  device_info, write_slot_device_info, make_device, write_device, free_slot, freed, install,
  with_device, provision_slot,
}

-- Writing the management networks changes no other field.
store_cidrs_ifindex :
    (s : SlotItem) (cs : List MgmtCidr)
    → ((store_cidrs s cs).ifindex ≡ s.ifindex) × ((store_cidrs s cs).inner_ip ≡ s.inner_ip)
unfolding store_cidrs
store_cidrs_ifindex s [] = (refl, refl)
store_cidrs_ifindex s (c ∷ cs) = ground (arith, store_cidrs_ifindex (store_cidr s c) cs)

store_planes_ifindex :
    (s : SlotItem) (css : List (List MgmtCidr))
    → ((store_planes s css).ifindex ≡ s.ifindex) × ((store_planes s css).inner_ip ≡ s.inner_ip)
unfolding store_planes
store_planes_ifindex s [] = (refl, refl)
store_planes_ifindex s (cs ∷ css) =
    ground (arith, store_planes_ifindex (store_cidrs s cs) css, store_cidrs_ifindex s cs)

device_info_ifindex :
    (info : SlotInfo) (n : ℕ) (s : SlotItem)
    → ((device_info info n s).ifindex ≡ n) × ((device_info info n s).inner_ip ≡ s.inner_ip)
unfolding device_info
device_info_ifindex info n s =
    store_planes_ifindex (record s { ifindex = n; mgmt_cidr_count = 0 }) info.cidrs

-- What a slot holds behind steps 1 and 2, and that no other slot is touched.
record IsWritten (mode i n : ℕ) (m q : MmappedSlots) : Type 0 where
  pub has_device : (q.items i).ifindex ≡ n
  pub has_mode : (q.items i).mode ≡ mode
  pub kept_ip : (q.items i).inner_ip ≡ (m.items i).inner_ip
  pub others : SameBut i m q

write_device-IsWritten :
    (info : SlotInfo) (mode i n : ℕ) (m : MmappedSlots)
    → i < m.num_slots
    → IsWritten mode i n m (write_device info mode i n m)
unfolding write_device write_slot_device_info update_slot_fields
write_device-IsWritten info mode i n m h = record {
  has_device = ground (arith, device_info_ifindex info n (m.items i));
  has_mode = ground arith;
  kept_ip = ground (arith, device_info_ifindex info n (m.items i));
  others = record { others = λ j ne. ground arith; bound = ground arith };
}

-- With no interference a Reserved slot is freed, and lowered, in the first round.
free_slot_quiet :
    (i : ℕ) (m : MmappedSlots)
    → i < m.num_slots
    → (m.items i).inner_ip ≡ inner_ip_reserved
    → ((free_slot [] i m).0 ≡ ok tt)
      × ((free_slot [] i m).1.items i ≡ record (m.items i) { inner_ip = 0; flags = 0 })
      × SameBut i m (free_slot [] i m).1
unfolding free_slot try_unreserve
free_slot_quiet i m h r =
    (ground arith, ground arith, record { others = λ j ne. ground arith; bound = ground arith })

-- What installing a device leaves: the slot has it, and is Free and down, or still Reserved.
abbrev pub Settled : Result ProvisionError (Unit {0}) → SlotItem → Type 0
Settled (ok _) s = (s.inner_ip ≡ inner_ip_free) × (s.flags ≡ 0)
Settled (err _) s = s.inner_ip ≡ inner_ip_reserved

pub record IsInstalled (mode i n : ℕ) (p : Provisioned)
    (r : Result ProvisionError (Unit {0}) × Provisioned) : Type 0 where
  pub has_device : (r.1.slots.items i).ifindex ≡ n
  pub has_mode : (r.1.slots.items i).mode ≡ mode
  pub settled : Settled r.0 (r.1.slots.items i)
  pub others : SameBut i p.slots r.1.slots

freed-IsInstalled :
    (mode i n : ℕ) (p : Provisioned) (q : MmappedSlots) (index : ℕ → Option ℕ)
    → i < p.slots.num_slots
    → (p.slots.items i).inner_ip ≡ inner_ip_reserved
    → IsWritten mode i n p.slots q
    → IsInstalled mode i n p (freed (free_slot [] i q) index)
freed-IsInstalled mode i n p q index h r w =
    let (done, item, same) = free_slot_quiet i q (ground (arith, w.others.bound)) (w.kept_ip ∙ r) in
    record {
      has_device = rw item w.has_device;
      has_mode = rw item w.has_mode;
      settled = rw (done, item) (refl, refl);
      others = record {
        others = λ j ne. same.others j ne ∙ w.others.others j ne;
        bound = same.bound ∙ w.others.bound;
      };
    }

install-IsInstalled :
    (k : ProvisionAnswers) (info : SlotInfo) (mode i : ℕ) (switches : Bool) (old n : ℕ)
    (p : Provisioned)
    → (k.port i).races ≡ []
    → i < p.slots.num_slots
    → (p.slots.items i).inner_ip ≡ inner_ip_reserved
    → IsInstalled mode i n p (install k info mode i switches old n p)
unfolding install
install-IsInstalled k info mode i switches old n p quiet h r =
    let w = write_device-IsWritten info mode i n p.slots h in
    elim (Bool-cases ((not (n == old) && k.has_index) && not (k.port i).update_index)) [
      | inl fails ↦ rw fails (record {
        has_device = w.has_device;
        has_mode = w.has_mode;
        settled = w.kept_ip ∙ r;
        others = w.others;
      })
      | inr goes ↦ rw (goes, quiet) (freed-IsInstalled mode i n p _ _ h r w)
    ]

-- What provisioning a slot may do, whatever the device's calls answer: nothing, and the result is an
-- error, or the device is installed.
pub provision_slot-cases :
    (k : ProvisionAnswers) (port_netns : Bytes) (info : SlotInfo) (mode i : ℕ) (p : Provisioned)
    → (k.port i).races ≡ []
    → i < p.slots.num_slots
    → (p.slots.items i).inner_ip ≡ inner_ip_reserved
    → ((e : ProvisionError) × (provision_slot k port_netns info mode i p ≡ (err e, p)))
      ⊎ ((n : ℕ) × (make_device k port_netns mode i ≡ ok n)
          × (provision_slot k port_netns info mode i p
              ≡ install k info mode i
                  (not ((p.slots.items i).ifindex == 0) && not ((p.slots.items i).mode == mode))
                  (p.slots.items i).ifindex
                  (u32 n)
                  p)
          × IsInstalled mode i (u32 n) p (provision_slot k port_netns info mode i p))
unfolding provision_slot
provision_slot-cases k port_netns info mode i p quiet h r =
    by_device (make_device k port_netns mode i) refl
  where
    by_device :
        (d : Result ProvisionError ℕ)
        → make_device k port_netns mode i ≡ d
        → ((e : ProvisionError) × (with_device k info mode i d p ≡ (err e, p)))
          ⊎ ((n : ℕ) × (make_device k port_netns mode i ≡ ok n)
              × (with_device k info mode i d p
                  ≡ install k info mode i
                      (not ((p.slots.items i).ifindex == 0) && not ((p.slots.items i).mode == mode))
                      (p.slots.items i).ifindex
                      (u32 n)
                      p)
              × IsInstalled mode i (u32 n) p (with_device k info mode i d p))
    by_device (err e) eq = inl (e, refl)
    by_device (ok n) eq = inr (
      n,
      eq,
      refl,
      install-IsInstalled k info mode i _ (p.slots.items i).ifindex (u32 n) p quiet h r,
    )
