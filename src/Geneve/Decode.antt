-- ===== src/Geneve/Decode.antt =====
-- A receiver's reading of the options that pkg/vswitch/geneve.go writes: the option TLVs of the
-- GENEVE header (class, type, a length in words in the low five bits of a byte, the payload).
use mathlib.Core.Option
use connector.Base.{
  ℕ, zero, suc, ◌+◌, ◌*◌, ◌/◌, ◌%◌, ◌-◌, ◌≤◌, ◌<◌, ◌≡◌, refl, ap, Option, none, some, List, [], ◌∷◌,
  ◌++◌, arith, ok, length, length-append, Bytes, All, ltb, if◌then◌else◌, ltb-false, u8, take, drop,
  replicate, take-append, drop-append,
}
use connector.Geneve.{
  GeneveTlvLocator, GeneveOption, GeneveOptsValue, marshal_geneve_options, max_geneve_opts_len,
  total_len,
}
use connector.Geneve.Marshal.{encode_all, marshal_sound, Accepted}

-- Fuel bounds the number of options: each takes four bytes or more, so one for each byte is enough.
pub decode : ℕ → Bytes → Option (List GeneveOption)
decode fuel [] = some []
decode zero (_ ∷ _) = none
decode (suc fuel) (c1 ∷ c0 ∷ t ∷ l ∷ body) =
    let n = l % 32 * 4 in
    let rest = decode fuel (drop n body) in
    if ltb (length body) n
    then none
    else Option.map (λ os. record { class = c1 * 256 + c0; type = t; payload = take n body } ∷ os)
        rest
decode (suc fuel) _ = none

-- The fields of a Go value: a uint16 and a uint8.
abbrev pub InWidth : GeneveOption → Type 0
InWidth o = (o.class < 65536) × (o.type < 256)

decode-encode_all :
    (locator : ℕ) (tlv : Option GeneveTlvLocator) (os : List GeneveOption) (fuel : ℕ)
    → All InWidth os
    → All (Accepted locator tlv) os
    → length (encode_all os) ≤ max_geneve_opts_len
    → length (encode_all os) ≤ fuel
    → decode fuel (encode_all os) ≡ some os
unfolding decode
decode-encode_all locator tlv [] fuel w a b f = refl
decode-encode_all locator tlv (o ∷ os) zero w a b f = absurd (omega arith)
decode-encode_all locator tlv (o ∷ os) (suc fuel) w a b f =
    let split = length-append o.payload (encode_all os) in
    let words : u8 (length o.payload / 4) % 32 * 4 ≡ length o.payload = omega arith in
    let ih = decode-encode_all locator tlv os fuel w.1 a.1 (omega arith) (omega arith) in
    let class_kept : u8 (o.class / 256) * 256 + u8 o.class ≡ o.class = omega arith in
    rw
      (
        words,
        ltb-false (length (o.payload ++ encode_all os)) (length o.payload) (omega arith),
        take-append o.payload (encode_all os),
        drop-append o.payload (encode_all os),
        ih,
        class_kept,
      )
      refl

abbrev pad_of : List GeneveOption → Bytes
pad_of options = replicate (max_geneve_opts_len - length (encode_all options)) 0

encoded-le :
    (locator : ℕ) (options : List GeneveOption) (total : ℕ)
    → total ≡ total_len locator (length (encode_all options))
    → total ≤ max_geneve_opts_len
    → length (encode_all options) ≤ max_geneve_opts_len
unfolding total_len
encoded-le locator options total e b = ground arith

-- The bytes that an attachment hands to the dataplane decode to the options that it was given, in
-- order and unchanged.
pub marshal-decode :
    (locator : ℕ) (tlv : Option GeneveTlvLocator) (options : List GeneveOption)
    (value : GeneveOptsValue) (total : ℕ)
    → All InWidth options
    → marshal_geneve_options locator tlv options ≡ ok (value, total)
    → decode value.len (take value.len value.content) ≡ some options
marshal-decode locator tlv options value total w h =
    let (v, len, tot, fits, all) = marshal_sound locator tlv options value total h in
    let small = encoded-le locator options total tot fits in
    rw (len, ap (λ x. x.content) v, take-append (encode_all options) (pad_of options))
      (decode-encode_all locator tlv options (length (encode_all options)) w all small
        (omega arith))
