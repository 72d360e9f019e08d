-- ===== src/Geneve/Strings/RoundTrip.antt =====
-- What the String methods write is read back.
use connector.Base.{
  ◌⊎◌, inl, inr, ◌/◌, ℕ, ◌%◌, ◌<◌, ◌≡◌, refl, ap, ◌∙◌, false, some, List, [], ◌∷◌, ◌++◌, Bytes, ok,
  ==_refl, length, arith, All,
}
use connector.Text.{is_space, has_byte, trim_right, trim_space}
use connector.Text.Words.{IsSolid, IsSolid-append, has_byte_none, cut-key}
use connector.Text.Address.{hex_byte}
use connector.Text.Hex.{
  hex_word, encode_hex, parse_hex-hex_byte, parse_hex-hex_word, decode_hex-encode_hex,
}
use connector.Geneve.{GeneveTlvLocator, GeneveOption}
use connector.Geneve.Strings.{
  is_signed, parse_hex_uint, cut_again, three_parts, of_parts, parse_geneve_option, split,
  parse_each, parse_geneve_options, option_string, parse_geneve_tlv_locator, tlv_locator_string,
  of_two_parts,
}

-- A byte that no hexadecimal text has.
abbrev IsSeparator : ℕ → Type 0
IsSeparator b = (b ≡ b':') ⊎ (b ≡ b',')

module _ (b : ℕ) (sep : IsSeparator b) where
  hex_byte-no : (n : ℕ) → n < 256 → has_byte b (hex_byte n) ≡ false
  hex_byte-no n lt = ground arith

  hex_word-no : (n : ℕ) → n < 65536 → has_byte b (hex_word n) ≡ false
  hex_word-no n lt =
      has_byte_none b (hex_byte (n / 256)) (hex_byte (n % 256))
        (hex_byte-no (n / 256) (omega (arith, lt))) (hex_byte-no (n % 256) (omega arith))

  encode_hex-no : (bs : Bytes) → All (λ x. x < 256) bs → has_byte b (encode_hex bs) ≡ false
  encode_hex-no [] h = refl
  encode_hex-no (x ∷ bs) (lt, h) =
      has_byte_none b (hex_byte x) (encode_hex bs) (hex_byte-no x lt) (encode_hex-no bs h)

hex_byte-IsSolid : (n : ℕ) → IsSolid (hex_byte n)
hex_byte-IsSolid n = ground arith

hex_word-IsSolid : (n : ℕ) → IsSolid (hex_word n)
hex_word-IsSolid n =
    IsSolid-append (hex_byte (n / 256)) (hex_byte (n % 256)) (hex_byte-IsSolid (n / 256))
      (hex_byte-IsSolid (n % 256))

encode_hex-IsSolid : (bs : Bytes) → IsSolid (encode_hex bs)
encode_hex-IsSolid [] = tt
encode_hex-IsSolid (b ∷ bs) =
    IsSolid-append (hex_byte b) (encode_hex bs) (hex_byte-IsSolid b) (encode_hex-IsSolid bs)

parse_hex_uint-hex_word : (n : ℕ) → n < 65536 → parse_hex_uint 65536 (hex_word n) ≡ some n
unfolding parse_hex_uint
parse_hex_uint-hex_word n lt = rw (unsigned n) (parse_hex-hex_word n lt)
  where
    unsigned : (n : ℕ) → is_signed (hex_word n) ≡ false
    unsigned n = ground arith

parse_hex_uint-hex_byte : (n : ℕ) → n < 256 → parse_hex_uint 256 (hex_byte n) ≡ some n
unfolding parse_hex_uint
parse_hex_uint-hex_byte n lt = rw (unsigned n) (parse_hex-hex_byte n lt)
  where
    unsigned : (n : ℕ) → is_signed (hex_byte n) ≡ false
    unsigned n = ground arith

-- What the wire allows: 16 and 8 bits, and a payload of whole words.
pub record IsWireOption (o : GeneveOption) : Type 0 where
  pub class : o.class < 65536
  pub type : o.type < 256
  pub bytes : All (λ b. b < 256) o.payload
  pub aligned : length o.payload % 4 ≡ 0

three_parts-option_string :
    (o : GeneveOption)
    → IsWireOption o
    → three_parts (option_string o) ≡ some (hex_word o.class, hex_byte o.type, encode_hex o.payload)
unfolding option_string
three_parts-option_string o w =
    ap cut_again (cut-key b':' (hex_word o.class) _ (hex_word-no b':' (inl refl) o.class w.class))
    ∙ rw
        (
          cut-key b':' (hex_byte o.type) (encode_hex o.payload)
              (hex_byte-no b':' (inl refl) o.type w.type),
          cut_again,
        )
        refl

-- An option that the wire allows is read back from its string.
pub option_string-parse :
    (o : GeneveOption) → IsWireOption o → parse_geneve_option (option_string o) ≡ ok o
unfolding parse_geneve_option
option_string-parse o w =
    ap of_parts (three_parts-option_string o w)
    ∙ rw
        (
          parse_hex_uint-hex_word o.class w.class,
          parse_hex_uint-hex_byte o.type w.type,
          decode_hex-encode_hex o.payload w.bytes,
        )
        (ground (arith, w.aligned))

trim_right-solid : (s : Bytes) → IsSolid s → trim_right is_space s ≡ s
trim_right-solid [] h = refl
trim_right-solid (c ∷ cs) (h, hs) = rw (h, trim_right-solid cs hs) refl

trim_space-solid : (s : Bytes) → IsSolid s → trim_space s ≡ s
unfolding trim_space
trim_space-solid [] h = refl
trim_space-solid (c ∷ cs) (h, hs) = rw h (trim_right-solid (c ∷ cs) (h, hs))

split-word : (b : ℕ) (w s : Bytes) → has_byte b w ≡ false → split b (w ++ b ∷ s) ≡ w ∷ split b s
split-word b [] s h = rw (==_refl b) refl
split-word b (c ∷ cs) s h = ground (arith, h, split-word b cs s)

split-last : (b : ℕ) (w : Bytes) → has_byte b w ≡ false → split b w ≡ w ∷ []
split-last b [] h = refl
split-last b (c ∷ cs) h = ground (arith, h, split-last b cs)

option_string-IsSolid : (o : GeneveOption) → IsSolid (option_string o)
unfolding option_string
option_string-IsSolid o =
    IsSolid-append (hex_word o.class) (b':' ∷ hex_byte o.type ++ b':' ∷ encode_hex o.payload)
      (hex_word-IsSolid o.class)
      (
        refl,
        IsSolid-append (hex_byte o.type) (b':' ∷ encode_hex o.payload) (hex_byte-IsSolid o.type)
            (refl, encode_hex-IsSolid o.payload),
      )

option_string-no : (o : GeneveOption) → IsWireOption o → has_byte b',' (option_string o) ≡ false
unfolding option_string
option_string-no o w =
    has_byte_none b',' (hex_word o.class) (b':' ∷ hex_byte o.type ++ b':' ∷ encode_hex o.payload)
      (hex_word-no b',' (inr refl) o.class w.class)
      (has_byte_none b',' (hex_byte o.type) (b':' ∷ encode_hex o.payload)
        (hex_byte-no b',' (inr refl) o.type w.type)
        (encode_hex-no b',' (inr refl) o.payload w.bytes))

-- The options' strings with commas between them.
abbrev pub options_string : List GeneveOption → Bytes
options_string [] = []
options_string (o ∷ []) = option_string o
options_string (o ∷ p ∷ os) = option_string o ++ b',' ∷ options_string (p ∷ os)

parse_first :
    (o : GeneveOption) → IsWireOption o → parse_geneve_option (trim_space (option_string o)) ≡ ok o
parse_first o w =
    ap parse_geneve_option (trim_space-solid (option_string o) (option_string-IsSolid o))
    ∙ option_string-parse o w

parse_each-split :
    (o : GeneveOption) (os : List GeneveOption)
    → All IsWireOption (o ∷ os)
    → parse_each (split b',' (options_string (o ∷ os))) ≡ ok (o ∷ os)
parse_each-split o [] (w, _) =
    ap parse_each (split-last b',' (option_string o) (option_string-no o w))
    ∙ rw (parse_first o w) refl
parse_each-split o (p ∷ os) (w, ws) =
    ap parse_each
      (split-word b',' (option_string o) (options_string (p ∷ os)) (option_string-no o w))
    ∙ rw (parse_first o w, parse_each-split p os ws) refl

-- Options that the wire allows are read back from their strings with commas between them.
pub options_string-parse :
    (os : List GeneveOption)
    → All IsWireOption os
    → parse_geneve_options (options_string os) ≡ ok os
unfolding parse_geneve_options option_string
options_string-parse [] h = refl
options_string-parse (o ∷ []) h = parse_each-split o [] h
options_string-parse (o ∷ p ∷ os) h = parse_each-split o (p ∷ os) h

-- A locator's CLASS:TYPE is read back.
pub tlv_locator_string-parse :
    (l : GeneveTlvLocator)
    → l.class < 65536
    → l.type < 256
    → parse_geneve_tlv_locator (tlv_locator_string l) ≡ ok l
unfolding parse_geneve_tlv_locator tlv_locator_string
tlv_locator_string-parse l class type =
    ap of_two_parts (
      split-word b':' (hex_word l.class) (hex_byte l.type)
        (hex_word-no b':' (inl refl) l.class class)
      ∙ ap (λ t. hex_word l.class ∷ t)
          (split-last b':' (hex_byte l.type) (hex_byte-no b':' (inl refl) l.type type)))
    ∙ rw (parse_hex_uint-hex_word l.class class, parse_hex_uint-hex_byte l.type type) refl
