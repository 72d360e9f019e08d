-- ===== src/Config/Match.antt =====
-- `validateConfigMatch` of pkg/vswitch/lifecycle.go: a start of a switch that exists already is
-- accepted if the configuration is the one that it runs with. A mismatch is the field's name.
use connector.Base.{
  ℕ, ◌≡◌, refl, Bool, true, false, not, ◌&&◌, Option, none, some, List, [], ◌∷◌, ◌++◌, Result, ok,
  err, arith, ◌==◌, if◌then◌else◌, Bytes, bytes_eq, bytes_eq_sound, bytes_eq_refl, ==_iff, ==_refl,
  ◌<◌, ap, ◌∙◌, ◌⊎◌, inl, inr, ◌≢◌, Bool-cases,
}
use connector.Ip.{to4, ip_to_uint32, uint32_to_ip}
use connector.Ip.RoundTrip.{to4-uint32_to_ip, ip_to_uint32-to4}
use connector.Geneve.{GeneveTlvLocator, geneve_locator_port, geneve_locator_tlv}
use connector.Switch.{SwitchConfig, SwitchMetadata}
use connector.Switch.Abi.{geneve_locator_from_config, geneve_tlv_locator_from_config}
use connector.Config.{
  Config, apply_geneve_defaults, switch_config, written, validate_geneve, is_none, tlv_class_of,
  tlv_type_of,
}
use connector.Config.Services.{short_form}

pub data Mismatch : Type 0 where
  ports floating_base generation_bits switch_netns port_netns transit_dev : Mismatch
  geneve_locator geneve_port_base geneve_tlv_locator : Mismatch

pub data MatchError : Type 0 where
  config_mismatch : List Mismatch → MatchError

-- `IP.Equal`: a 4-byte address and its 16-byte form are the same.
abbrev pub ip_equal : Bytes → Bytes → Bool
ip_equal a b = bytes_eq (short_form a) (short_form b)

abbrev pub unless : Bool → Mismatch → List Mismatch
unless true m = []
unless false m = m ∷ []

abbrev pub same_tlv : Option GeneveTlvLocator → GeneveTlvLocator → Bool
same_tlv none l = false
same_tlv (some r) l = r.class == l.class && r.type == l.type

-- A switch from before the default was applied has the port base 0.
abbrev pub same_port_base : Config → SwitchConfig → Bool
same_port_base c existing =
    if c.geneve_port_base_defaulted && existing.geneve_port_base == 0
    then true
    else c.geneve_port_base == existing.geneve_port_base

abbrev pub locator_mismatches : Config → SwitchConfig → List Mismatch
locator_mismatches c existing =
    if not (c.geneve_locator == geneve_locator_from_config existing)
    then geneve_locator ∷ []
    else if c.geneve_locator == geneve_locator_port
    then unless (same_port_base c existing) geneve_port_base
    else if c.geneve_locator == geneve_locator_tlv
    then unless (same_tlv c.geneve_tlv_locator (geneve_tlv_locator_from_config existing))
        geneve_tlv_locator
    else []

unfoldable pub mismatches : Config → SwitchConfig → SwitchMetadata → List Mismatch
mismatches c existing meta =
    unless (c.num_ports == existing.n_ports) ports
    ++ (unless (ip_equal c.floating_ip_base (uint32_to_ip existing.floating_ip_base)) floating_base
        ++ (unless (c.generation_bits == existing.generation_bits) generation_bits
            ++ (unless (bytes_eq c.switch_netns meta.switch_netns) switch_netns
                ++ (unless (bytes_eq c.port_netns meta.port_netns) port_netns
                    ++ (unless (bytes_eq c.transit_dev meta.transit_dev) transit_dev
                        ++ locator_mismatches c existing)))))

abbrev pub verdict : List Mismatch → Result MatchError (Unit {0})
verdict [] = ok tt
verdict (m ∷ ms) = err (config_mismatch (m ∷ ms))

unfoldable pub validate_config_match :
    Config → SwitchConfig → SwitchMetadata → Result MatchError (Unit {0})
unfolding apply_geneve_defaults mismatches
validate_config_match requested existing meta =
    verdict (mismatches (apply_geneve_defaults requested) existing meta)

unless_none :
    (b : Bool) (m : Mismatch) (ms : List Mismatch) → unless b m ++ ms ≡ [] → (b ≡ true) × (ms ≡ [])
unless_none true m ms h = (refl, h)
unless_none false m ms h = cc

verdict-ok : (ms : List Mismatch) → verdict ms ≡ ok tt → ms ≡ []
verdict-ok [] h = refl
verdict-ok (m ∷ ms) h = cc

-- The same locator, with the port base or the identity that goes with it. A request that leaves the port
-- base out also agrees with a switch from before the default, whose base is 0.
abbrev pub SameLocator : Config → SwitchConfig → Type 0
SameLocator c existing =
    (c.geneve_locator ≡ existing.geneve_locator)
    × (((c.geneve_locator ≡ geneve_locator_port)
          × ((c.geneve_port_base ≡ existing.geneve_port_base)
              ⊎ ((c.geneve_port_base_defaulted ≡ true) × (existing.geneve_port_base ≡ 0))))
        ⊎ ((c.geneve_locator ≡ geneve_locator_tlv)
            × (c.geneve_tlv_locator
                ≡ some (record {
                  class = existing.geneve_tlv_class;
                  type = existing.geneve_tlv_type;
                })))
        ⊎ ((c.geneve_locator ≢ geneve_locator_port) × (c.geneve_locator ≢ geneve_locator_tlv)))

-- The configurations agree on what attachments depend on.
pub record Agrees (c : Config) (existing : SwitchConfig) (meta : SwitchMetadata) : Type 0 where
  pub same_ports : c.num_ports ≡ existing.n_ports
  pub same_base :
      short_form c.floating_ip_base ≡ short_form (uint32_to_ip existing.floating_ip_base)
  pub same_bits : c.generation_bits ≡ existing.generation_bits
  pub same_switch_netns : c.switch_netns ≡ meta.switch_netns
  pub same_port_netns : c.port_netns ≡ meta.port_netns
  pub same_transit_dev : c.transit_dev ≡ meta.transit_dev
  pub same_locator : SameLocator c existing

unless-nil : (b : Bool) (m : Mismatch) → unless b m ≡ [] → b ≡ true
unless-nil true m h = refl
unless-nil false m h = cc

same_tlv-some :
    (o : Option GeneveTlvLocator) (l : GeneveTlvLocator) → same_tlv o l ≡ true → o ≡ some l
same_tlv-some none l h = cc
same_tlv-some (some r) l h = ground (arith, h)

same_port_base_or :
    (c : Config) (existing : SwitchConfig)
    → same_port_base c existing ≡ true
    → (c.geneve_port_base ≡ existing.geneve_port_base)
      ⊎ ((c.geneve_port_base_defaulted ≡ true) × (existing.geneve_port_base ≡ 0))
same_port_base_or c existing h =
    elim (Bool-cases (c.geneve_port_base == existing.geneve_port_base)) [
      | inl same ↦ inl ((==_iff _ _).0 same)
      | inr differ ↦ inr (ground (arith, h, differ))
    ]

past_locator :
    (b : Bool) (rest : List Mismatch)
    → (if not b then geneve_locator ∷ [] else rest) ≡ []
    → (b ≡ true) × (rest ≡ [])
past_locator true rest h = (refl, h)
past_locator false rest h = cc

locator_agrees :
    (c : Config) (existing : SwitchConfig)
    → locator_mismatches c existing ≡ []
    → SameLocator c existing
locator_agrees c existing h =
    let (same, h1) = past_locator (c.geneve_locator == existing.geneve_locator) _ h in
    (
      (==_iff _ _).0 same,
      elim (Bool-cases (c.geneve_locator == geneve_locator_port)) [
        | inl port ↦ inl (
          (==_iff _ _).0 port,
          same_port_base_or c existing
              (unless-nil (same_port_base c existing) geneve_port_base (rw port at h1)),
        )
        | inr off ↦ inr (elim (Bool-cases (c.geneve_locator == geneve_locator_tlv)) [
          | inl tlv ↦ inl (
            (==_iff _ _).0 tlv,
            same_tlv-some c.geneve_tlv_locator _
                (unless-nil _ geneve_tlv_locator (rw (off, tlv) at h1)),
          )
          | inr off_tlv ↦ inr (ground (arith, off), ground (arith, off_tlv))
        ])
      ],
    )

mismatches-Agrees :
    (c : Config) (existing : SwitchConfig) (meta : SwitchMetadata)
    → mismatches c existing meta ≡ []
    → Agrees c existing meta
unfolding mismatches
mismatches-Agrees c existing meta h =
    let (e1, h1) = unless_none _ _ _ h in
    let (e2, h2) = unless_none _ _ _ h1 in
    let (e3, h3) = unless_none _ _ _ h2 in
    let (e4, h4) = unless_none _ _ _ h3 in
    let (e5, h5) = unless_none _ _ _ h4 in
    let (e6, h6) = unless_none _ _ _ h5 in
    record {
      same_ports = (==_iff _ _).0 e1;
      same_base = bytes_eq_sound _ _ e2;
      same_bits = (==_iff _ _).0 e3;
      same_switch_netns = bytes_eq_sound _ _ e4;
      same_port_netns = bytes_eq_sound _ _ e5;
      same_transit_dev = bytes_eq_sound _ _ e6;
      same_locator = locator_agrees c existing h6;
    }

-- A start that is accepted asks, behind its defaults, for the number of ports, the floating window, the
-- namespaces, the transit device and the locator that the switch runs with, and for the TLV identity of a
-- TLV locator and the port base of a port locator, where a base that is left out also accepts 0.
pub validate_config_match-Agrees :
    (c : Config) (existing : SwitchConfig) (meta : SwitchMetadata)
    → validate_config_match c existing meta ≡ ok tt
    → Agrees (apply_geneve_defaults c) existing meta
unfolding validate_config_match
validate_config_match-Agrees c existing meta h =
    mismatches-Agrees (apply_geneve_defaults c) existing meta (verdict-ok _ h)

-- The names that `UpdateSwitchMetadata` stores.
abbrev pub metadata_of : Config → SwitchMetadata
metadata_of c = record {
  switch_netns = c.switch_netns;
  port_netns = c.port_netns;
  transit_dev = c.transit_dev;
}

tlv_matches :
    (l : Option GeneveTlvLocator)
    → is_none l ≡ false
    → same_tlv l (record { class = tlv_class_of l; type = tlv_type_of l }) ≡ true
tlv_matches none h = cc
tlv_matches (some l) h = ground arith

-- For a valid locator, the configuration has no mismatch with what it wrote itself.
locator_own : (c : Config) → validate_geneve c ≡ ok tt → locator_mismatches c (written c) ≡ []
unfolding validate_geneve
locator_own c h = ground (arith, tlv_matches c.geneve_tlv_locator)

-- A base that has a four-byte form is read back as it was.
base_own :
    (ip : Bytes) (a b d e : ℕ)
    → to4 ip ≡ a ∷ b ∷ d ∷ e ∷ []
    → a < 256
    → b < 256
    → d < 256
    → e < 256
    → ip_equal ip (uint32_to_ip (ip_to_uint32 ip)) ≡ true
base_own ip a b d e t ha hb hd he =
    let back = to4-uint32_to_ip a b d e ha hb hd he in
    rw (ip_to_uint32-to4 ip a b d e t, t, back) (bytes_eq_refl (a ∷ b ∷ d ∷ e ∷ []))

mismatches_own :
    (c : Config) (a b d e : ℕ)
    → validate_geneve c ≡ ok tt
    → to4 c.floating_ip_base ≡ a ∷ b ∷ d ∷ e ∷ []
    → a < 256
    → b < 256
    → d < 256
    → e < 256
    → mismatches c (written c) (metadata_of c) ≡ []
unfolding mismatches
mismatches_own c a b d e g t ha hb hd he =
    rw
      (
        ==_refl c.num_ports,
        base_own c.floating_ip_base a b d e t ha hb hd he,
        ==_refl c.generation_bits,
        bytes_eq_refl c.switch_netns,
        bytes_eq_refl c.port_netns,
        bytes_eq_refl c.transit_dev,
      )
      (locator_own c g)

defaults_keep :
    (c : Config)
    → (metadata_of c ≡ metadata_of (apply_geneve_defaults c))
      × ((apply_geneve_defaults c).floating_ip_base ≡ c.floating_ip_base)
unfolding apply_geneve_defaults
defaults_keep c = ground arith

-- A switch can be started again with the configuration that created it: with a valid locator and an
-- IPv4 base, it matches what it wrote.
pub validate_config_match_own :
    (c : Config) (a b d e : ℕ)
    → validate_geneve (apply_geneve_defaults c) ≡ ok tt
    → to4 c.floating_ip_base ≡ a ∷ b ∷ d ∷ e ∷ []
    → a < 256
    → b < 256
    → d < 256
    → e < 256
    → validate_config_match c (switch_config c) (metadata_of c) ≡ ok tt
unfolding validate_config_match switch_config
validate_config_match_own c a b d e g t ha hb hd he =
    let (names, base) = defaults_keep c in
    let d' = apply_geneve_defaults c in
    ap (λ m. verdict (mismatches d' (written d') m)) names
    ∙ ap verdict (mismatches_own d' a b d e g (rw base t) ha hb hd he)
