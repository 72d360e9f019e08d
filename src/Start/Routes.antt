-- ===== src/Start/Routes.antt =====
-- The return routes cover every floating address (pkg/vswitch/lifecycle.go).
use native.Mathlib.Nat.{le-div_iff_mul-le, div-mul-le_self, div-lt_iff_lt-mul, lt-div-mul-add}
use connector.Base.{
  ℕ, ◌+◌, ◌-◌, ◌*◌, ◌/◌, ◌^◌, ◌≤◌, ◌<◌, ◌≡◌, refl, ◌⊎◌, inl, inr, false, List, [], ◌∷◌, arith,
  Bytes, ◌==◌, u32, Bool-cases, ==_iff, ltb-false, ap, ◌∙◌,
}
use connector.Ip.{to4, is_nil, ip_to_uint32}
use connector.Config.Window.{slot_bits}
use connector.Identity.{max_ports, FitsWindow, floating_ip-window, floating_ip_for_attachment}
use connector.Start.{Net, floating_return_nets, masked, second_net}

-- The address lies in one of the nets: under the net's own prefix it is the net's address.
abbrev pub IsCovered : ℕ → List Net → Type 0
IsCovered x [] = ⊥
IsCovered x (n ∷ ns) = (masked n.prefix x ≡ n.ip) ⊎ IsCovered x ns

two_blocks :
    (size u x : ℕ)
    → 0 < size
    → u ≤ x
    → x ≤ u + size - 1
    → (x / size ≡ u / size) ⊎ (x / size ≡ (u + size - 1) / size)
two_blocks size u x s p q =
    let low : u / size ≤ x / size =
      (le-div_iff_mul-le s).1 (omega (arith, div-mul-le_self u size)) in
    let high : x / size ≤ (u + size - 1) / size =
      (le-div_iff_mul-le s).1 (omega (arith, div-mul-le_self x size)) in
    let next : (u + size - 1) / size < u / size + 1 + 1 =
      (div-lt_iff_lt-mul s).1 (omega (arith, lt-div-mul-add {a = u} s)) in
    omega arith

-- The blocks of a prefix of the window's size.
same_net :
    (prefix size x u v : ℕ)
    → 2 ^ (32 - prefix) ≡ size
    → (x / size ≡ u / size) ⊎ (x / size ≡ v / size)
    → (masked prefix x ≡ masked prefix u) ⊎ (masked prefix x ≡ masked prefix v)
same_net prefix size x u v is (inl e) = inl (rw is (ap (λ n. n * size) e))
same_net prefix size x u v is (inr e) = inr (rw is (ap (λ n. n * size) e))

second-IsCovered :
    (prefix x start end : ℕ)
    → (masked prefix x ≡ start) ⊎ (masked prefix x ≡ end)
    → IsCovered x (record { ip = start; prefix = prefix } ∷ second_net prefix start end)
second-IsCovered prefix x start end (inl e) = inl e
second-IsCovered prefix x start end (inr e) = elim (Bool-cases (end == start)) [
  | inl same ↦ inl (e ∙ (==_iff _ _).0 same)
  | inr other ↦ rw other (inr (inl e))
]

nets_of :
    (base : Bytes) (bits : ℕ)
    → is_nil (to4 base) ≡ false
    → bits ≤ 20
    → ip_to_uint32 base + 2 ^ (12 + bits) ≤ 4294967296
    → 0 < 2 ^ (12 + bits)
    → let u = ip_to_uint32 base in
      let prefix = 20 - bits in
      floating_return_nets base bits
      ≡ record { ip = masked prefix u; prefix = prefix }
        ∷ second_net prefix (masked prefix u) (masked prefix (u + 2 ^ (12 + bits) - 1))
unfolding floating_return_nets
nets_of base bits v4 few fits some =
    let in_word : u32 (ip_to_uint32 base + 2 ^ (12 + bits) - 1)
        ≡ ip_to_uint32 base + 2 ^ (12 + bits) - 1 =
      omega arith in
    rw
      (
        v4,
        ltb-false 20 bits few,
        ltb-false 4294967295 (ip_to_uint32 base + 2 ^ (12 + bits) - 1) (omega arith),
        in_word,
      )
      refl

-- For an IPv4 base and at most 20 generation bits, in a window that does not overflow: every floating
-- address of the switch lies in one of the return routes, under the prefix of that route.
pub floating_return_nets-IsCovered :
    (base : Bytes) (bits slot generation : ℕ)
    → is_nil (to4 base) ≡ false
    → bits ≤ 20
    → FitsWindow (ip_to_uint32 base) bits
    → slot < max_ports
    → generation < 2 ^ bits
    → IsCovered
        (floating_ip_for_attachment (ip_to_uint32 base) slot generation)
        (floating_return_nets base bits)
floating_return_nets-IsCovered base bits slot generation v4 few fits hs hg =
    let u = ip_to_uint32 base in
    let x = floating_ip_for_attachment u slot generation in
    let size = 2 ^ (12 + bits) in
    let split : size ≡ 2 ^ bits * 4096 = slot_bits bits in
    let (low, high) = floating_ip-window u bits slot generation fits hs hg in
    let some : 0 < size = omega arith in
    let prefix_bits : 32 - (20 - bits) ≡ 12 + bits = omega arith in
    rw (nets_of base bits v4 few (omega arith) some) (
      second-IsCovered (20 - bits) x (masked (20 - bits) u) (masked (20 - bits) (u + size - 1)) (
        same_net (20 - bits) size x u (u + size - 1) (ap (λ n. 2 ^ n) prefix_bits)
          (two_blocks size u x some low (omega arith))))
