-- ===== src/Geneve/Marshal.antt =====
-- What `marshalGeneveOptions` of pkg/vswitch/geneve.go accepts, and what it returns.
use connector.Base.{
  ℕ, ◌+◌, ◌%◌, ◌≤◌, ◌≡◌, refl, ◌∙◌, Bool, true, false, ◌||◌, Option, List, [], ◌∷◌, ◌++◌, arith, ok,
  length, length-append, Bytes, All, ltb, u8, refuse-ok, >>=-ok, refuse, ◌>>◌,
}
use mathlib.Core.List.{append-nil, append_assoc}
use connector.Geneve.{
  GeneveTlvLocator, GeneveOption, option_bytes, collides, is_critical, write_options, value_of,
  total_len, GeneveOptsValue, marshal_geneve_options, wire_too_long, max_geneve_opts_len,
}

abbrev pub encode_all : List GeneveOption → Bytes
encode_all [] = []
encode_all (o ∷ os) = option_bytes o ++ encode_all os

abbrev pub any_critical : List GeneveOption → Bool
any_critical [] = false
any_critical (o ∷ os) = is_critical o || any_critical os

abbrev pub Accepted : ℕ → Option GeneveTlvLocator → GeneveOption → Type 0
Accepted locator tlv o = (length o.payload % 4 ≡ 0) × (collides locator tlv o ≡ false)

-- The bytes and the flag after the whole loop.
abbrev Written :
    ℕ → Option GeneveTlvLocator → List GeneveOption → Bytes → Bool → Bytes × Bool → Type 0
Written locator tlv os out critical r =
    (r.0 ≡ out ++ encode_all os)
    × (r.1 ≡ (critical || any_critical os))
    × All (Accepted locator tlv) os
    × (length r.0 ≤ max_geneve_opts_len)

write_step :
    (locator : ℕ) (tlv : Option GeneveTlvLocator) (o : GeneveOption) (os : List GeneveOption)
    (out : Bytes) (critical : Bool) (r : Bytes × Bool)
    → write_options locator tlv (o ∷ os) out critical ≡ ok r
    → Accepted locator tlv o
      × (length out + (4 + length o.payload) ≤ max_geneve_opts_len)
      × (write_options locator tlv os (out ++ option_bytes o) (critical || is_critical o) ≡ ok r)
unfolding write_options
write_step locator tlv o os out critical r h =
    let (aligned, h1) = refuse-ok _ _ _ h in
    let (apart, h2) = refuse-ok _ _ _ h1 in
    let (fits, h3) = refuse-ok _ _ _ h2 in ((ground arith, apart), ground arith, h3)

or_false : (a : Bool) → (a || false) ≡ a
or_false true = refl
or_false false = refl

or_assoc : (a b c : Bool) → ((a || b) || c) ≡ (a || (b || c))
or_assoc true b c = refl
or_assoc false b c = refl

write_options-Written :
    (locator : ℕ) (tlv : Option GeneveTlvLocator) (os : List GeneveOption) (out : Bytes)
    (critical : Bool) (r : Bytes × Bool)
    → length out ≤ max_geneve_opts_len
    → write_options locator tlv os out critical ≡ ok r
    → Written locator tlv os out critical r
unfolding write_options
write_options-Written locator tlv [] out critical r b h =
    ground (arith, append-nil out, or_false critical)
write_options-Written locator tlv (o ∷ os) out critical r b h =
    let (acc, fits, rest) = write_step locator tlv o os out critical r h in
    let (bytes, crit, all, small) =
      write_options-Written locator tlv os (out ++ option_bytes o) (critical || is_critical o) r
        (rw (length-append out (option_bytes o)) (omega arith)) rest in
    (
      bytes ∙ append_assoc out (option_bytes o) (encode_all os),
      crit ∙ or_assoc critical (is_critical o) (any_critical os),
      (acc, all),
      small,
    )

abbrev pub MarshalOk :
    ℕ → Option GeneveTlvLocator → List GeneveOption → GeneveOptsValue → ℕ → Type 0
MarshalOk locator tlv options value total =
    (value ≡ value_of (encode_all options) (any_critical options))
    × (value.len ≡ length (encode_all options))
    × (total ≡ total_len locator (length (encode_all options)))
    × (total ≤ max_geneve_opts_len)
    × All (Accepted locator tlv) options

finish-ok :
    (locator : ℕ) (out : Bytes) (critical : Bool) (value : GeneveOptsValue) (total : ℕ)
    → length out ≤ max_geneve_opts_len
    → ◌>>◌ {B = GeneveOptsValue × ℕ}
        (refuse (ltb max_geneve_opts_len (total_len locator (length out))) wire_too_long)
        (ok (value_of out critical, u8 (total_len locator (length out))))
      ≡ ok (value, total)
    → (value ≡ value_of out critical)
      × (value.len ≡ length out)
      × (total ≡ total_len locator (length out))
      × (total ≤ max_geneve_opts_len)
finish-ok locator out critical value total b h = ground arith

-- A successful result holds the options' encodings in order and the critical flag of any of them,
-- its two lengths are the true ones and at most 64 bytes with the generated locator counted, every
-- payload is a whole number of words, and no option has the class and type of the locator.
pub marshal_sound :
    (locator : ℕ) (tlv : Option GeneveTlvLocator) (options : List GeneveOption)
    (value : GeneveOptsValue) (total : ℕ)
    → marshal_geneve_options locator tlv options ≡ ok (value, total)
    → MarshalOk locator tlv options value total
unfolding marshal_geneve_options
marshal_sound locator tlv options value total h =
    let (r, wrote, h1) = >>=-ok (write_options locator tlv options [] false) _ h in
    let (bytes, crit, all, small) =
      write_options-Written locator tlv options [] false r (omega arith) wrote in
    let (v, len, tot, fits) =
      finish-ok locator (encode_all options) (any_critical options) value total (rw bytes at small)
        (rw (bytes, crit) at h1) in
    (v, len, tot, fits, all)

write_options_complete :
    (locator : ℕ) (tlv : Option GeneveTlvLocator) (os : List GeneveOption) (out : Bytes)
    (critical : Bool)
    → All (Accepted locator tlv) os
    → length (out ++ encode_all os) ≤ max_geneve_opts_len
    → write_options locator tlv os out critical
      ≡ ok (out ++ encode_all os, critical || any_critical os)
unfolding write_options
write_options_complete locator tlv [] out critical all b =
    ground (arith, append-nil out, or_false critical)
write_options_complete locator tlv (o ∷ os) out critical all b =
    let regroup = append_assoc out (option_bytes o) (encode_all os) in
    let fits : length out + (4 + length o.payload) ≤ max_geneve_opts_len = omega (
      arith,
      length-append out (option_bytes o ++ encode_all os),
      length-append (option_bytes o) (encode_all os),
    ) in
    let ih =
      write_options_complete locator tlv os (out ++ option_bytes o) (critical || is_critical o)
        all.1 (rw regroup b) in
    rw (ih, regroup, or_assoc critical (is_critical o) (any_critical os)) (ground arith)

within : (locator n : ℕ) → total_len locator n ≤ max_geneve_opts_len → n ≤ max_geneve_opts_len
unfolding total_len
within locator n b = ground arith

-- Whatever meets those conditions is accepted.
pub marshal_complete :
    (locator : ℕ) (tlv : Option GeneveTlvLocator) (options : List GeneveOption)
    → All (Accepted locator tlv) options
    → total_len locator (length (encode_all options)) ≤ max_geneve_opts_len
    → marshal_geneve_options locator tlv options
      ≡ ok (
        value_of (encode_all options) (any_critical options),
        total_len locator (length (encode_all options)),
      )
unfolding marshal_geneve_options
marshal_complete locator tlv options all b =
    rw (write_options_complete locator tlv options [] false all (within locator _ b)) (ground arith)
