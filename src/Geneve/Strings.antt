-- ===== src/Geneve/Strings.antt =====
-- The strings of locators and options: the parsers and String methods of pkg/vswitch/geneve.go.
pub mod RoundTrip
use connector.Base.{
  ℕ, ◌%◌, Bool, true, false, not, ◌&&◌, ◌||◌, Option, none, some, List, [], ◌∷◌, ◌++◌, Bytes,
  Result, ok, err, ◌==◌, if◌then◌else◌, length, leb, ◌+◌, bytes_eq,
}
use connector.Text.{codes, is_empty, cut, trim_space}
use connector.Text.Address.{hex_byte}
use connector.Text.Hex.{parse_hex, hex_word, encode_hex, decode_hex}
use connector.Geneve.{
  GeneveTlvLocator, GeneveOption, geneve_locator_port, geneve_locator_vni, geneve_locator_tlv,
}

pub data StringError : Type 0 where
  unknown_locator bad_form bad_class bad_type bad_payload unaligned_payload : StringError

abbrev lower : ℕ → ℕ
lower c = if leb b'A' c && leb c b'Z' then c + 32 else c

-- `strings.ToLower`.
abbrev to_lower : Bytes → Bytes
to_lower [] = []
to_lower (c ∷ cs) = lower c ∷ to_lower cs

unfoldable pub parse_geneve_locator : Bytes → Result StringError ℕ
parse_geneve_locator value =
    let name = to_lower (trim_space value) in
    if is_empty name || bytes_eq name (codes "port")
    then ok geneve_locator_port
    else if bytes_eq name (codes "vni")
    then ok geneve_locator_vni
    else if bytes_eq name (codes "tlv")
    then ok geneve_locator_tlv
    else err unknown_locator

-- A signed text is refused before it is read.
abbrev is_signed : Bytes → Bool
is_signed [] = false
is_signed (c ∷ cs) = c == b'+' || c == b'-'

unfoldable pub parse_hex_uint : ℕ → Bytes → Option ℕ
parse_hex_uint bound value = if is_signed value then none else parse_hex bound value

-- `strings.SplitN(value, ":", 3)` with its three parts, the last one unsplit.
abbrev cut_again : Option (Bytes × Bytes) → Option (Bytes × Bytes × Bytes)
cut_again none = none
cut_again (some (a, rest)) = elim (cut b':' rest) [ none ↦ none | some r ↦ some (a, r.0, r.1) ]

abbrev three_parts : Bytes → Option (Bytes × Bytes × Bytes)
three_parts value = cut_again (cut b':' value)

abbrev option_of : ℕ → ℕ → Option Bytes → Result StringError GeneveOption
option_of class type none = err bad_payload
option_of class type (some payload) =
    if not (length payload % 4 == 0)
    then err unaligned_payload
    else ok (record { class = class; type = type; payload = payload })

abbrev with_class : Option ℕ → Option ℕ → Option Bytes → Result StringError GeneveOption
with_class none type payload = err bad_class
with_class (some class) none payload = err bad_type
with_class (some class) (some type) payload = option_of class type payload

abbrev of_parts : Option (Bytes × Bytes × Bytes) → Result StringError GeneveOption
of_parts none = err bad_form
of_parts (some (class, type, payload)) =
    if is_empty class || is_empty type
    then err bad_form
    else with_class (parse_hex_uint 65536 class) (parse_hex_uint 256 type) (decode_hex payload)

unfoldable pub parse_geneve_option : Bytes → Result StringError GeneveOption
parse_geneve_option value = of_parts (three_parts value)

-- `strings.Split` at one byte.
abbrev push : ℕ → List Bytes → List Bytes
push c [] = (c ∷ []) ∷ []
push c (w ∷ ws) = (c ∷ w) ∷ ws

abbrev pub split : ℕ → Bytes → List Bytes
split b [] = [] ∷ []
split b (c ∷ cs) = let rest = split b cs in if c == b then [] ∷ rest else push c rest

abbrev onto_options :
    Result StringError GeneveOption
    → Result StringError (List GeneveOption)
    → Result StringError (List GeneveOption)
onto_options (err e) rest = err e
onto_options (ok o) (err e) = err e
onto_options (ok o) (ok os) = ok (o ∷ os)

abbrev parse_each : List Bytes → Result StringError (List GeneveOption)
parse_each [] = ok []
parse_each (p ∷ ps) = onto_options (parse_geneve_option (trim_space p)) (parse_each ps)

unfoldable pub parse_geneve_options : Bytes → Result StringError (List GeneveOption)
parse_geneve_options [] = ok []
parse_geneve_options (c ∷ cs) = parse_each (split b',' (c ∷ cs))

unfoldable pub option_string : GeneveOption → Bytes
option_string o = hex_word o.class ++ b':' ∷ hex_byte o.type ++ b':' ∷ encode_hex o.payload

-- CLASS:TYPE, with exactly two parts.
abbrev tlv_of : Option ℕ → Option ℕ → Result StringError GeneveTlvLocator
tlv_of none type = err bad_class
tlv_of (some class) none = err bad_type
tlv_of (some class) (some type) = ok (record { class = class; type = type })

abbrev of_two_parts : List Bytes → Result StringError GeneveTlvLocator
of_two_parts (class ∷ type ∷ []) =
    if is_empty class || is_empty type
    then err bad_form
    else tlv_of (parse_hex_uint 65536 class) (parse_hex_uint 256 type)
of_two_parts _ = err bad_form

unfoldable pub parse_geneve_tlv_locator : Bytes → Result StringError GeneveTlvLocator
parse_geneve_tlv_locator value = of_two_parts (split b':' value)

unfoldable pub tlv_locator_string : GeneveTlvLocator → Bytes
tlv_locator_string l = hex_word l.class ++ b':' ∷ hex_byte l.type
