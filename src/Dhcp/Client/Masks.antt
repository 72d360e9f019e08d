-- ===== src/Dhcp/Client/Masks.antt =====
-- The bytes of a network mask that is ones and then zeros (parseLease of pkg/dhcp/client.go).
use Prim.Native.Nat.{bit_and}
use connector.Base.{
  ℕ, zero, suc, ◌+◌, ◌%◌, ◌<◌, ◌≡◌, refl, ap, Bool, true, false, ◌&&◌, ◌||◌, Option, none, some,
  List, [], ◌∷◌, ◌==◌, Bytes, arith, sym, ◌∙◌, Bool-cases, inl, inr,
}
use connector.Dhcp.Client.{ones_of_byte, all_zero, eight_more, leading_ones}

abbrev pub below : ℕ → (ℕ → Bool) → Bool
below zero test = true
below (suc n) test = test n && below n test

pub below_sound : (n b : ℕ) (test : ℕ → Bool) → below n test ≡ true → b < n → test b ≡ true
below_sound zero b test h lt = absurd (omega arith)
below_sound (suc n) b test h lt = ground (arith, below_sound n b test, h)

abbrev any_of : List ℕ → (ℕ → Bool) → Bool
any_of [] test = false
any_of (x ∷ xs) test = test x || any_of xs test

abbrev pub all_of : List ℕ → (ℕ → Bool) → Bool
all_of [] test = true
all_of (x ∷ xs) test = test x && all_of xs test

pub all_of-any :
    (xs : List ℕ) (test : ℕ → Bool) (m : ℕ)
    → all_of xs test ≡ true
    → any_of xs (λ x. x == m) ≡ true
    → test m ≡ true
all_of-any [] test m h g = cc
all_of-any (x ∷ xs) test m h g = elim (Bool-cases (x == m)) [
  | inl same ↦ sym (ap test (==→eq x m same)) ∙ (and_true (test x) _ h).0
  | inr ne ↦ all_of-any xs test m (and_true (test x) _ h).1 (rw ne at g)
]
  where
    and_true : (a b : Bool) → (a && b) ≡ true → (a ≡ true) × (b ≡ true)
    and_true a b h = ground (arith, h)

    ==→eq : (a b : ℕ) → (a == b) ≡ true → a ≡ b
    ==→eq a b h = ground (arith, h)

-- The bytes in which a mask ends its ones, but for a whole byte of them.
abbrev pub last_bytes : List ℕ
last_bytes = 0 ∷ 128 ∷ 192 ∷ 224 ∷ 240 ∷ 248 ∷ 252 ∷ 254 ∷ []

abbrev keeps_network : ℕ → ℕ → Bool
keeps_network m b = bit_and b m == bit_and ((bit_and b m + 1) % 256) m

abbrev same_network : ℕ → ℕ → Bool
same_network m b = bit_and b m == bit_and (bit_and b m) m

all_keep : all_of last_bytes (λ m. below 256 (keeps_network m)) ≡ true
all_keep = refl

all_same : all_of (255 ∷ last_bytes) (λ m. below 256 (same_network m)) ≡ true
all_same = refl

pub is_last_byte : (m j : ℕ) → ones_of_byte m ≡ some j → any_of last_bytes (λ x. x == m) ≡ true
is_last_byte m j h = ground (arith, h)

-- The addresses' bytes, as many as the mask's.
abbrev pub FitsMask : Bytes → Bytes → Type 0
FitsMask [] [] = Unit
FitsMask (b ∷ bs) (m ∷ ms) = (b < 256) × FitsMask bs ms
FitsMask [] (m ∷ ms) = ⊥
FitsMask (b ∷ bs) [] = ⊥

pub last_keeps : (b m j : ℕ) → b < 256 → ones_of_byte m ≡ some j → keeps_network m b ≡ true
last_keeps b m j lt h =
    below_sound 256 b (keeps_network m)
      (all_of-any last_bytes (λ m. below 256 (keeps_network m)) m all_keep (is_last_byte m j h)) lt

pub byte_same :
    (b m : ℕ) → b < 256 → any_of (255 ∷ last_bytes) (λ x. x == m) ≡ true → same_network m b ≡ true
byte_same b m lt h =
    below_sound 256 b (same_network m)
      (all_of-any (255 ∷ last_bytes) (λ m. below 256 (same_network m)) m all_same h) lt

pub leading_ones_zeros : (ms : Bytes) → all_zero ms ≡ true → leading_ones ms ≡ some 0
leading_ones_zeros [] h = refl
leading_ones_zeros (m ∷ ms) h = ground (arith, h, leading_ones_zeros ms)

-- The ones of a mask whose first byte is whole, and of one whose first byte is not.
pub whole_byte :
    (m : ℕ) (ms : Bytes) (k : ℕ)
    → (m == 255) ≡ true
    → leading_ones (m ∷ ms) ≡ some k
    → (j : ℕ) × (leading_ones ms ≡ some j) × (k ≡ 8 + j)
whole_byte m ms k whole h = by_rest (leading_ones ms) refl (rw whole at h)
  where
    by_rest :
        (o : Option ℕ)
        → leading_ones ms ≡ o
        → eight_more (leading_ones ms) ≡ some k
        → (j : ℕ) × (leading_ones ms ≡ some j) × (k ≡ 8 + j)
    by_rest none is h = ground (arith, h, is)
    by_rest (some j) is h = (j, is, ground (arith, h, is))

pub part_byte :
    (m : ℕ) (ms : Bytes) (k : ℕ)
    → (m == 255) ≡ false
    → leading_ones (m ∷ ms) ≡ some k
    → (ones_of_byte m ≡ some k) × (all_zero ms ≡ true)
part_byte m ms k part h = ground (arith, rw part at h)
