-- ===== src/Dhcp/Client/Gateway.antt =====
-- The gateway that a lease without a router infers.
use Prim.Native.Nat.{bit_and}
use connector.Base.{
  ℕ, suc, ◌+◌, ◌*◌, length, ◌<◌, ltb, ◌≡◌, refl, ap, Bool, true, false, ◌&&◌, ◌||◌, none, some, [],
  ◌∷◌, ◌==◌, Bytes, arith, ◌∙◌, Bool-cases, inl, inr, if◌then◌else◌,
}
use connector.Ip.{to4, is_nil}
use connector.Config.Services.{contains, masked_eq, short_form, mask_for}
use connector.Dhcp.Client.{
  ClientLease, ones_of_byte, leading_ones, mask_ip, next_ip, to_transit_config,
}
use connector.Dhcp.Client.Masks.{
  below, below_sound, all_of, all_of-any, last_bytes, is_last_byte, FitsMask, leading_ones_zeros,
  whole_byte, part_byte, last_keeps, byte_same,
}

and_intro : (a b : Bool) → a ≡ true → b ≡ true → (a && b) ≡ true
and_intro a b h g = rw (h, g) refl

or_intro : (a b : Bool) → b ≡ true → (a || b) ≡ true
or_intro a b h = ground (arith, h)

masked_next :
    (ip mask : Bytes) (k : ℕ)
    → FitsMask ip mask
    → leading_ones mask ≡ some k
    → k < 8 * length mask
    → masked_eq ip (next_ip (mask_ip ip mask)) mask ≡ true
masked_next [] [] k fits ones few = absurd (omega (arith, few))
masked_next (b ∷ []) (m ∷ []) k (lt, _) ones few = elim (Bool-cases (m == 255)) [
  | inl whole ↦ let (j, rest, is) = whole_byte m [] k whole ones in absurd (omega (arith, few, is))
  | inr part ↦ ground (arith, last_keeps b m k lt (part_byte m [] k part ones).0)
]
masked_next (b ∷ c ∷ bs) (m ∷ n ∷ ms) k (lt, fits) ones few = elim (Bool-cases (m == 255)) [
  | inl whole ↦
      let (j, rest, is) = whole_byte m (n ∷ ms) k whole ones in
      and_intro _ _ (byte_same b m lt (ground (arith, whole)))
        (masked_next (c ∷ bs) (n ∷ ms) j fits rest (omega (arith, few, is)))
  | inr part ↦
      let (last, zeros) = part_byte m (n ∷ ms) k part ones in
      and_intro _ _ (byte_same b m lt (or_intro (255 == m) _ (is_last_byte m k last)))
        (masked_next (c ∷ bs) (n ∷ ms) 0 fits (leading_ones_zeros (n ∷ ms) zeros) (omega arith))
]
masked_next (b ∷ []) (m ∷ n ∷ ms) k (lt, fits) ones few = absurd fits
masked_next (b ∷ c ∷ bs) (m ∷ []) k (lt, fits) ones few = absurd fits
masked_next [] (m ∷ ms) k fits ones few = absurd fits
masked_next (b ∷ bs) [] k fits ones few = absurd fits

to4_four : (ip : Bytes) → length ip ≡ 4 → short_form ip ≡ ip
unfolding to4
to4_four ip h = rw (four_lem (length ip) h) (same (is_nil ip))
  where
    four_lem : (n : ℕ) → n ≡ 4 → (n == 4) ≡ true
    four_lem n h = ground (arith, h)

    same : (b : Bool) → (if b then ip else ip) ≡ ip
    same true = refl
    same false = refl

length-mask_ip : (ip mask : Bytes) → FitsMask ip mask → length (mask_ip ip mask) ≡ length ip
length-mask_ip [] [] fits = refl
length-mask_ip (b ∷ bs) (m ∷ ms) (lt, fits) = ap suc (length-mask_ip bs ms fits)
length-mask_ip [] (m ∷ ms) fits = absurd fits
length-mask_ip (b ∷ bs) [] fits = absurd fits

length-mask : (ip mask : Bytes) → FitsMask ip mask → length mask ≡ length ip
length-mask [] [] fits = refl
length-mask (b ∷ bs) (m ∷ ms) (lt, fits) = ap suc (length-mask bs ms fits)
length-mask [] (m ∷ ms) fits = absurd fits
length-mask (b ∷ bs) [] fits = absurd fits

length-next_ip : (ip : Bytes) → length (next_ip ip) ≡ length ip
length-next_ip [] = refl
length-next_ip (b ∷ []) = refl
length-next_ip (b ∷ c ∷ bs) = ap suc (length-next_ip (c ∷ bs))

contains-next :
    (ip mask : Bytes) (k : ℕ)
    → length ip ≡ 4
    → FitsMask ip mask
    → leading_ones mask ≡ some k
    → k < 32
    → contains (record { ip = ip; mask = mask }) (next_ip (mask_ip ip mask)) ≡ true
unfolding contains
contains-next ip mask k four fits ones few =
    let gw = next_ip (mask_ip ip mask) in
    let gw_four = length-next_ip (mask_ip ip mask) ∙ length-mask_ip ip mask fits ∙ four in
    let mask_four = length-mask ip mask fits ∙ four in
    rw (to4_four ip four, to4_four gw gw_four, short_mask mask_four)
      (masked_next ip mask k fits ones (omega (arith, few, mask_four)))
  where
    short_mask : length mask ≡ 4 → mask_for ip mask ≡ mask
    short_mask h = ground (arith, h)

-- The last byte takes one more without a carry.
abbrev last_fits : Bytes → Bool
last_fits [] = true
last_fits (b ∷ []) = ltb b 255
last_fits (b ∷ c ∷ bs) = last_fits (c ∷ bs)

abbrev leaves_room : ℕ → ℕ → Bool
leaves_room m b = ltb (bit_and b m) 255

all_leave_room : all_of last_bytes (λ m. below 256 (leaves_room m)) ≡ true
all_leave_room = refl

last_leaves_room : (b m j : ℕ) → b < 256 → ones_of_byte m ≡ some j → leaves_room m b ≡ true
last_leaves_room b m j lt h =
    below_sound 256 b (leaves_room m)
      (all_of-any last_bytes (λ m. below 256 (leaves_room m)) m all_leave_room (is_last_byte m j h))
      lt

last_fits-mask_ip :
    (ip mask : Bytes) (k : ℕ)
    → FitsMask ip mask
    → leading_ones mask ≡ some k
    → k < 8 * length mask
    → last_fits (mask_ip ip mask) ≡ true
last_fits-mask_ip [] [] k fits ones few = refl
last_fits-mask_ip (b ∷ []) (m ∷ []) k (lt, _) ones few = elim (Bool-cases (m == 255)) [
  | inl whole ↦ let (j, rest, is) = whole_byte m [] k whole ones in absurd (omega (arith, few, is))
  | inr part ↦ last_leaves_room b m k lt (part_byte m [] k part ones).0
]
last_fits-mask_ip (b ∷ c ∷ bs) (m ∷ n ∷ ms) k (lt, fits) ones few = elim (Bool-cases (m == 255)) [
  | inl whole ↦
      let (j, rest, is) = whole_byte m (n ∷ ms) k whole ones in
      last_fits-mask_ip (c ∷ bs) (n ∷ ms) j fits rest (omega (arith, few, is))
  | inr part ↦
      last_fits-mask_ip (c ∷ bs) (n ∷ ms) 0 fits
        (leading_ones_zeros (n ∷ ms) (part_byte m (n ∷ ms) k part ones).1) (omega arith)
]
last_fits-mask_ip (b ∷ []) (m ∷ n ∷ ms) k (lt, fits) ones few = absurd fits
last_fits-mask_ip (b ∷ c ∷ bs) (m ∷ []) k (lt, fits) ones few = absurd fits
last_fits-mask_ip [] (m ∷ ms) k fits ones few = absurd fits
last_fits-mask_ip (b ∷ bs) [] k fits ones few = absurd fits

-- The bytes read as one number, behind those that are read already.
abbrev pub number_from : ℕ → Bytes → ℕ
number_from n [] = n
number_from n (b ∷ bs) = number_from (n * 256 + b) bs

number_from-next_ip :
    (n b : ℕ) (bs : Bytes)
    → last_fits (b ∷ bs) ≡ true
    → number_from n (next_ip (b ∷ bs)) ≡ number_from n (b ∷ bs) + 1
number_from-next_ip n b [] fits = ground (arith, fits)
number_from-next_ip n b (c ∷ bs) fits = number_from-next_ip (n * 256 + b) c bs fits

number_from-mask_ip :
    (ip mask : Bytes) (k : ℕ)
    → FitsMask ip mask
    → leading_ones mask ≡ some k
    → k < 8 * length mask
    → number_from 0 (next_ip (mask_ip ip mask)) ≡ number_from 0 (mask_ip ip mask) + 1
number_from-mask_ip [] [] k fits ones few = absurd (omega (arith, few))
number_from-mask_ip (b ∷ bs) (m ∷ ms) k fits ones few =
    number_from-next_ip 0 (bit_and b m) (mask_ip bs ms)
      (last_fits-mask_ip (b ∷ bs) (m ∷ ms) k fits ones few)
number_from-mask_ip [] (m ∷ ms) k fits ones few = absurd fits
number_from-mask_ip (b ∷ bs) [] k fits ones few = absurd fits

-- The gateway that is inferred for an IPv4 lease without a router lies in the lease's network and is the
-- address behind the network's own, where the mask is of fewer than 32 leading ones.
pub inferred_gateway-contained :
    (l : ClientLease) (k : ℕ)
    → l.gateway ≡ none
    → length l.ip ≡ 4
    → FitsMask l.ip l.netmask
    → leading_ones l.netmask ≡ some k
    → k < 32
    → (contains (to_transit_config l).0 (to_transit_config l).1 ≡ true)
      × (number_from 0 (to_transit_config l).1 ≡ number_from 0 (mask_ip l.ip l.netmask) + 1)
unfolding to_transit_config
inferred_gateway-contained l k missing four fits ones few =
    let mask_four = length-mask l.ip l.netmask fits ∙ four in
    rw missing (
      contains-next l.ip l.netmask k four fits ones few,
      number_from-mask_ip l.ip l.netmask k fits ones (omega (arith, few, mask_four)),
    )
