-- ===== src/Text/Decimal.antt =====
-- `ParseUint` reads back what `%d` writes.
use connector.Base.{
  ℕ, zero, suc, ◌+◌, ◌/◌, ◌<◌, ◌≡◌, refl, ◌∙◌, true, false, [], ◌∷◌, Bytes, arith, ltb, Bool-cases,
  inl, inr, some, All,
}
use connector.Text.{is_empty, is_digit, digits_from, format_uint, parse_from, parse_uint}

parse_from-digits_from :
    (f bound n : ℕ) (out : Bytes)
    → n < f
    → n < bound
    → parse_from bound 0 (digits_from f n out) ≡ parse_from bound n out
parse_from-digits_from zero bound n out h k = absurd (omega arith)
parse_from-digits_from (suc f) bound n out h k = elim (Bool-cases (ltb n 10)) [
  | inl small ↦ rw small (ground arith)
  | inr big ↦
      rw big
        (parse_from-digits_from f bound (n / 10) _ (ground arith) (ground arith) ∙ ground arith)
]

digits_from-full : (f n : ℕ) (out : Bytes) → n < f → is_empty (digits_from f n out) ≡ false
digits_from-full zero n out h = absurd (omega arith)
digits_from-full (suc f) n out h = elim (Bool-cases (ltb n 10)) [
  | inl small ↦ rw small refl
  | inr big ↦ rw big (digits_from-full f (n / 10) _ (ground arith))
]

parse_uint-parse_from :
    (bound : ℕ) (s : Bytes) → is_empty s ≡ false → parse_uint bound s ≡ parse_from bound 0 s
unfolding parse_uint
parse_uint-parse_from bound [] h = cc
parse_uint-parse_from bound (c ∷ cs) h = refl

pub parse_uint-format_uint : (bound n : ℕ) → n < bound → parse_uint bound (format_uint n) ≡ some n
unfolding format_uint
parse_uint-format_uint bound n h =
    parse_uint-parse_from bound (digits_from (n + 1) n [])
      (digits_from-full (n + 1) n [] (omega arith))
    ∙ parse_from-digits_from (n + 1) bound n [] (omega arith) h

-- Every byte of a number is a digit.
digits_from-All :
    (f n : ℕ) (out : Bytes)
    → All (λ c. is_digit c ≡ true) out
    → All (λ c. is_digit c ≡ true) (digits_from f n out)
digits_from-All zero n out h = h
digits_from-All (suc f) n out h = elim (Bool-cases (ltb n 10)) [
  | inl small ↦ rw small (ground arith, h)
  | inr big ↦ rw big (digits_from-All f (n / 10) _ (ground arith, h))
]

pub format_uint-All : (n : ℕ) → All (λ c. is_digit c ≡ true) (format_uint n)
unfolding format_uint
format_uint-All n = digits_from-All (n + 1) n [] tt

pub format_uint_full : (n : ℕ) → is_empty (format_uint n) ≡ false
unfolding format_uint
format_uint_full n = digits_from-full (n + 1) n [] (omega arith)
