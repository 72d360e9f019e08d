-- ===== src/Examples/Options.antt =====
-- The GENEVE options of one attachment.
use connector.Base.{◌≡◌, refl, arith, some, [], ◌∷◌, ok, List, take, true}
use connector.Geneve.{
  GeneveOption, GeneveTlvLocator, GeneveOptsValue, marshal_geneve_options, write_options,
  geneve_locator_tlv, value_of,
}
use connector.Geneve.Decode.{decode, marshal-decode}
use connector.Geneve.Strings.{parse_geneve_options, option_string}
use connector.Geneve.Strings.RoundTrip.{options_string, options_string-parse}
use connector.Text.{codes}

abbrev locator : GeneveTlvLocator
locator = record { class = 258; type = 1 }

abbrev opaque : List GeneveOption
opaque =
    record { class = 258; type = 130; payload = 1 ∷ 2 ∷ 3 ∷ 4 ∷ [] }
    ∷ record { class = 9; type = 1; payload = [] }
    ∷ []

abbrev opaque_value : GeneveOptsValue
opaque_value = value_of (1 ∷ 2 ∷ 130 ∷ 1 ∷ 1 ∷ 2 ∷ 3 ∷ 4 ∷ 0 ∷ 9 ∷ 1 ∷ 0 ∷ []) true

marshalled : marshal_geneve_options geneve_locator_tlv (some locator) opaque ≡ ok (opaque_value, 20)
unfolding marshal_geneve_options write_options
marshalled = refl

marshal-decode_example :
    decode opaque_value.len (take opaque_value.len opaque_value.content) ≡ some opaque
marshal-decode_example =
    marshal-decode geneve_locator_tlv (some locator) opaque opaque_value 20
      ((omega arith, omega arith), ((omega arith, omega arith), tt)) marshalled

abbrev wire_options : List GeneveOption
wire_options =
    record { class = 259; type = 130; payload = 222 ∷ 173 ∷ 190 ∷ 239 ∷ [] }
    ∷ record { class = 65535; type = 0; payload = [] }
    ∷ []

options_string_written : options_string wire_options ≡ codes "0103:82:deadbeef,ffff:00:"
unfolding option_string
options_string_written = refl

options_string-parse_example : parse_geneve_options (options_string wire_options) ≡ ok wire_options
options_string-parse_example = options_string-parse wire_options (
  record {
    class = omega arith;
    type = omega arith;
    bytes = (omega arith, (omega arith, (omega arith, (omega arith, tt))));
    aligned = refl;
  },
  (record { class = omega arith; type = omega arith; bytes = tt; aligned = refl }, tt),
)
