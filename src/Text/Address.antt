-- ===== src/Text/Address.antt =====
-- How addresses are printed: `net.HardwareAddr.String` and `net.IP.String` of an IPv4 address.
use connector.Base.{
  ℕ, ◌+◌, ◌/◌, ◌%◌, ◌≡◌, refl, ◌-◌, true, false, [], ◌∷◌, ◌++◌, Bytes, ltb, if◌then◌else◌, arith,
  ◌==◌, All,
}
use connector.Text.{is_space, is_digit, is_empty, has_byte, format_uint}
use connector.Text.Words.{IsSolid, IsSolid-append, has_byte_none}
use connector.Text.Decimal.{format_uint-All}

abbrev pub hex_digit : ℕ → ℕ
hex_digit n = if ltb n 10 then b'0' + n else b'a' + (n - 10)

abbrev pub hex_byte : ℕ → Bytes
hex_byte b = hex_digit (b / 16) ∷ hex_digit (b % 16) ∷ []

abbrev pub join_with : ℕ → (ℕ → Bytes) → Bytes → Bytes
join_with sep print [] = []
join_with sep print (b ∷ []) = print b
join_with sep print (b ∷ c ∷ bs) = print b ++ sep ∷ join_with sep print (c ∷ bs)

unfoldable pub mac_string : Bytes → Bytes
mac_string = join_with b':' hex_byte

unfoldable pub ip_string : Bytes → Bytes
ip_string = join_with b'.' format_uint

-- A text without white space and NUL.
abbrev pub IsToken : Bytes → Type 0
IsToken s = IsSolid s × (has_byte 0 s ≡ false)

module _ (sep : ℕ) (print : ℕ → Bytes) (words : (n : ℕ) → IsToken (print n)) where
  join_with-IsToken :
      is_space sep ≡ false → (sep == 0) ≡ false → (bs : Bytes) → IsToken (join_with sep print bs)
  join_with-IsToken hs hz [] = (tt, refl)
  join_with-IsToken hs hz (b ∷ []) = words b
  join_with-IsToken hs hz (b ∷ c ∷ bs) =
      let (solid, plain) = join_with-IsToken hs hz (c ∷ bs) in
      let rest = join_with sep print (c ∷ bs) in
      (
        IsSolid-append (print b) (sep ∷ rest) (words b).0 (hs, solid),
        has_byte_none 0 (print b) (sep ∷ rest) (words b).1 (ground (arith, hz, plain)),
      )

hex_byte-IsToken : (n : ℕ) → IsToken (hex_byte n)
hex_byte-IsToken n = ground arith

pub mac_string-IsToken : (bs : Bytes) → IsToken (mac_string bs)
unfolding mac_string
mac_string-IsToken bs = join_with-IsToken b':' hex_byte hex_byte-IsToken refl refl bs

digits-IsToken : (s : Bytes) → All (λ c. is_digit c ≡ true) s → IsToken s
digits-IsToken [] h = (tt, refl)
digits-IsToken (c ∷ cs) (h, hs) =
    let (solid, plain) = digits-IsToken cs hs in ((ground arith, solid), ground (arith, plain))

pub format_uint-IsToken : (n : ℕ) → IsToken (format_uint n)
format_uint-IsToken n = digits-IsToken (format_uint n) (format_uint-All n)

pub ip_string-IsToken : (bs : Bytes) → IsToken (ip_string bs)
unfolding ip_string
ip_string-IsToken bs = join_with-IsToken b'.' format_uint format_uint-IsToken refl refl bs

pub join_with_full :
    (sep : ℕ) (print : ℕ → Bytes) (b : ℕ) (bs : Bytes)
    → ((n : ℕ) → is_empty (print n) ≡ false)
    → is_empty (join_with sep print (b ∷ bs)) ≡ false
join_with_full sep print b [] h = h b
join_with_full sep print b (c ∷ bs) h =
    full_append (print b) (sep ∷ join_with sep print (c ∷ bs)) (h b)
  where
    full_append : (v w : Bytes) → is_empty v ≡ false → is_empty (v ++ w) ≡ false
    full_append [] w e = cc
    full_append (x ∷ xs) w e = refl
