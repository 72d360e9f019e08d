-- ===== src/Geneve.antt =====
-- pkg/vswitch/geneve.go: GENEVE locators, VNIs, UDP ports, and the opaque options of an attachment
-- with their wire encoding.
pub mod Wire
pub mod Marshal
pub mod Decode
pub mod Strings
use connector.Base.{
  ℕ, ◌+◌, ◌-◌, ◌*◌, ◌/◌, ◌%◌, Bool, true, false, not, ◌&&◌, ◌||◌, Option, none, some, List, [], ◌∷◌,
  ◌++◌, bit_or, ltb, leb, ◌==◌, if◌then◌else◌, Result, ok, err, ◌>>=◌, ◌>>◌, refuse, Bytes, u8, u16,
  u32, length, replicate,
}

-- A GeneveLocator is a uint8; these are its three valid values.
abbrev pub geneve_locator_port : ℕ
geneve_locator_port = 0

abbrev pub geneve_locator_vni : ℕ
geneve_locator_vni = 1

abbrev pub geneve_locator_tlv : ℕ
geneve_locator_tlv = 2

abbrev pub valid : ℕ → Bool
valid l = leb geneve_locator_port l && leb l geneve_locator_tlv

abbrev pub default_geneve_port_base : ℕ
default_geneve_port_base = 50000

abbrev pub geneve_standard_port : ℕ
geneve_standard_port = 6081

abbrev pub max_geneve_opts_len : ℕ
max_geneve_opts_len = 64

abbrev pub geneve_tlv_locator_wire_len : ℕ
geneve_tlv_locator_wire_len = 8

abbrev pub geneve_vni_value_mask : ℕ
geneve_vni_value_mask = 4095

pub record GeneveTlvLocator : Type 0 where
  pub class : ℕ  -- uint16
  pub type : ℕ  -- uint8

pub record GeneveOption : Type 0 where
  pub class : ℕ  -- uint16
  pub type : ℕ  -- uint8
  pub payload : Bytes

-- The 64 bytes of `content` hold `len` bytes of options, then zeros.
pub record GeneveOptsValue : Type 0 where
  pub len : ℕ
  pub critical : ℕ
  pub content : Bytes

pub data GeneveError : Type 0 where
  unaligned_option collides_with_locator options_too_long wire_too_long vni_too_large : GeneveError

-- `option.Type&0x80 != 0`.
abbrev pub is_critical : GeneveOption → Bool
is_critical o = o.type / 128 % 2 == 1

-- `locator == GeneveLocatorTLV && tlv != nil && Class == tlv.Class && Type&0x7f == tlv.Type&0x7f`.
abbrev pub collides : ℕ → Option GeneveTlvLocator → GeneveOption → Bool
collides locator none o = false
collides locator (some tlv) o =
    locator == geneve_locator_tlv && o.class == tlv.class && o.type % 128 == tlv.type % 128

-- The bytes that one round of the loop writes at `offset`.
abbrev pub option_bytes : GeneveOption → Bytes
option_bytes o = u8 (o.class / 256) ∷ u8 o.class ∷ o.type ∷ u8 (length o.payload / 4) ∷ o.payload

-- The loop of `marshalGeneveOptions`; `offset` is the length of what is written so far.
unfoldable pub write_options :
    ℕ
    → Option GeneveTlvLocator
    → List GeneveOption
    → Bytes
    → Bool
    → Result GeneveError (Bytes × Bool)
write_options locator tlv [] out critical = ok (out, critical)
write_options locator tlv (o ∷ os) out critical =
    let rest = write_options locator tlv os (out ++ option_bytes o) (critical || is_critical o) in
    do
      refuse (not (length o.payload % 4 == 0)) unaligned_option
      refuse (collides locator tlv o) collides_with_locator
      refuse (ltb max_geneve_opts_len (length out + (4 + length o.payload))) options_too_long
      rest

abbrev pub value_of : Bytes → Bool → GeneveOptsValue
value_of out critical = record {
  len = u8 (length out);
  critical = if critical then 1 else 0;
  content = out ++ replicate (max_geneve_opts_len - length out) 0;
}

unfoldable pub total_len : ℕ → ℕ → ℕ
total_len locator offset =
    if locator == geneve_locator_tlv then offset + geneve_tlv_locator_wire_len else offset

unfoldable pub marshal_geneve_options :
    ℕ → Option GeneveTlvLocator → List GeneveOption → Result GeneveError (GeneveOptsValue × ℕ)
unfolding total_len
marshal_geneve_options locator tlv options = do
  (out, critical) ← write_options locator tlv options [] false
  refuse (ltb max_geneve_opts_len (total_len locator (length out))) wire_too_long
  ok (value_of out critical, u8 (total_len locator (length out)))

unfoldable pub validate_transit_geneve_vni : ℕ → ℕ → Result GeneveError (Unit {0})
validate_transit_geneve_vni locator vni =
    let max = if locator == geneve_locator_vni then geneve_vni_value_mask else 0xffffff in
    refuse (ltb max vni) vni_too_large

unfoldable pub geneve_wire_port : ℕ → ℕ → ℕ → ℕ
geneve_wire_port locator port_base slot_id =
    if locator == geneve_locator_port then u16 (u32 (port_base + slot_id)) else geneve_standard_port

unfoldable pub geneve_wire_vni : ℕ → ℕ → ℕ → ℕ
geneve_wire_vni locator slot_id vni =
    if locator == geneve_locator_vni then bit_or (u32 (slot_id * 4096)) vni else vni

unfoldable pub geneve_total_options_len : ℕ → ℕ → ℕ
geneve_total_options_len locator opaque_len =
    if locator == geneve_locator_tlv
    then u8 (opaque_len + geneve_tlv_locator_wire_len)
    else opaque_len
