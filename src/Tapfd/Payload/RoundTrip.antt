-- ===== src/Tapfd/Payload/RoundTrip.antt =====
-- The receiver reads the metadata that the sender wrote.
use mathlib.Core.List.{append-nil, append_assoc}
use connector.Base.{
  ℕ, ◌<◌, ◌≡◌, refl, sym, ap, ◌∙◌, true, false, List, [], ◌∷◌, ◌++◌, Result, ok, Bytes, arith, ◌==◌,
  All, if◌then◌else◌, refuse-ok, ltb, length, Bool-cases, inl, inr, ==_iff,
}
use connector.Text.{codes, fields, is_empty, is_digit, cut, has_byte, before_nul, format_uint}
use connector.Text.Words.{IsSolid, fields-word, fields-solid, has_byte_none}
use connector.Text.Decimal.{parse_uint-format_uint, format_uint-All}
use connector.Tapfd.Response.{max_payload_size}
use connector.Tapfd.Payload.{
  PortMetadata, PayloadError, netns_part, payload_line, marshal, store_tokens, no_metadata,
  parse_payload, mac_required, inner_ip_required, fd_count_required, too_large,
}

digits-IsSolid : (s : Bytes) → All (λ c. is_digit c ≡ true) s → IsSolid s
digits-IsSolid [] h = tt
digits-IsSolid (c ∷ cs) (h, hs) = (ground arith, digits-IsSolid cs hs)

digits_no_nul : (s : Bytes) → All (λ c. is_digit c ≡ true) s → has_byte 0 s ≡ false
digits_no_nul [] h = refl
digits_no_nul (c ∷ cs) (h, hs) = ground (arith, digits_no_nul cs hs)

format_uint-IsSolid : (n : ℕ) → IsSolid (format_uint n)
format_uint-IsSolid n = digits-IsSolid (format_uint n) (format_uint-All n)

format_uint_no_nul : (n : ℕ) → has_byte 0 (format_uint n) ≡ false
format_uint_no_nul n = digits_no_nul (format_uint n) (format_uint-All n)

-- Metadata whose texts are words and whose numbers fit their types.
pub record IsMetadata (m : PortMetadata) : Type 0 where
  pub mac_word : IsSolid m.mac
  pub mac_no_nul : has_byte 0 m.mac ≡ false
  pub ip_word : IsSolid m.inner_ip
  pub ip_no_nul : has_byte 0 m.inner_ip ≡ false
  pub port_fits : m.port < 4294967296
  pub fd_fits : m.fd_count < 256
  pub netns_fits : m.netns_fd_count < 256

before_nul-append : (s more : Bytes) → has_byte 0 s ≡ false → before_nul (s ++ 0 ∷ more) ≡ s
unfolding before_nul
before_nul-append [] more h = refl
before_nul-append (c ∷ cs) more h = ground (arith, before_nul-append cs more)

netns_part_no_nul : (n : ℕ) → has_byte 0 (netns_part n) ≡ false
netns_part_no_nul n = elim (Bool-cases (n == 0)) [
  | inl e ↦ rw e refl
  | inr e ↦ rw e (format_uint_no_nul n)
]

payload_line_no_nul : (m : PortMetadata) → IsMetadata m → has_byte 0 (payload_line m) ≡ false
payload_line_no_nul m v = has_byte_none 0 (format_uint m.port) _ (format_uint_no_nul m.port) (
    has_byte_none 0 m.mac _ v.mac_no_nul (
      has_byte_none 0 m.inner_ip _ v.ip_no_nul (
        has_byte_none 0 (format_uint m.fd_count) _ (format_uint_no_nul m.fd_count)
          (netns_part_no_nul m.netns_fd_count))))

abbrev netns_tokens : ℕ → List Bytes
netns_tokens n = if n == 0 then [] else (codes "netns_fd=" ++ format_uint n) ∷ []

fields-fd_part :
    (fd n : ℕ)
    → fields (codes "fd=" ++ (format_uint fd ++ netns_part n))
      ≡ (codes "fd=" ++ format_uint fd) ∷ netns_tokens n
fields-fd_part fd n = elim (Bool-cases (n == 0)) [
  | inl e ↦ rw e (
      ap (λ s. fields (codes "fd=" ++ s)) (append-nil (format_uint fd))
      ∙ fields-solid (codes "fd=" ++ format_uint fd) (ground (arith, format_uint-IsSolid fd)) refl)
  | inr e ↦ rw e (
      fields-word (codes "fd=" ++ format_uint fd) (codes "netns_fd=" ++ format_uint n) b' '
        (ground (arith, format_uint-IsSolid fd)) refl refl
      ∙ ap (λ r. (codes "fd=" ++ format_uint fd) ∷ r)
          (fields-solid (codes "netns_fd=" ++ format_uint n) (ground (arith, format_uint-IsSolid n))
            refl))
]

abbrev tokens_of : PortMetadata → List Bytes
tokens_of m =
    (codes "port=" ++ format_uint m.port)
    ∷ (codes "mac=" ++ m.mac)
    ∷ (codes "ip=" ++ m.inner_ip)
    ∷ (codes "fd=" ++ format_uint m.fd_count)
    ∷ netns_tokens m.netns_fd_count

fields-payload_line : (m : PortMetadata) → IsMetadata m → fields (payload_line m) ≡ tokens_of m
fields-payload_line m v =
    fields-word (codes "port=" ++ format_uint m.port) _ b' '
      (ground (arith, format_uint-IsSolid m.port)) refl refl
    ∙ ap (λ r. (codes "port=" ++ format_uint m.port) ∷ r)
        (fields-word (codes "mac=" ++ m.mac) _ b' ' (ground (arith, v.mac_word)) refl refl
          ∙ ap (λ r. (codes "mac=" ++ m.mac) ∷ r)
              (fields-word (codes "ip=" ++ m.inner_ip) _ b' ' (ground (arith, v.ip_word)) refl refl
                ∙ ap (λ r. (codes "ip=" ++ m.inner_ip) ∷ r)
                    (fields-fd_part m.fd_count m.netns_fd_count)))

module _ (port fd n : ℕ) (mac ip : Bytes) where
  abbrev metadata : ℕ → PortMetadata
  metadata k = record { port = port; mac = mac; inner_ip = ip; fd_count = fd; netns_fd_count = k }

  store_tokens-netns : n < 256 → store_tokens (netns_tokens n) (metadata 0) ≡ ok (metadata n)
  unfolding store_tokens cut
  store_tokens-netns h = elim (Bool-cases (n == 0)) [
    | inl e ↦ rw e (ap (λ k. ok (metadata k)) (sym ((==_iff n 0).0 e)))
    | inr e ↦ rw (e, parse_uint-format_uint 256 n h) refl
  ]

  store_tokens-tokens_of :
      port < 4294967296
      → fd < 256
      → n < 256
      → store_tokens (tokens_of (metadata n)) no_metadata ≡ ok (metadata n)
  unfolding store_tokens cut
  store_tokens-tokens_of hp hf hn =
      rw (parse_uint-format_uint 4294967296 port hp, parse_uint-format_uint 256 fd hf)
        (store_tokens-netns hn)

-- What a successful marshalling gives.
pub marshal-line :
    (m : PortMetadata) (sent : Bytes) → marshal m ≡ ok sent → sent ≡ payload_line m ++ 0 ∷ []
unfolding marshal
marshal-line m sent h =
    let (_, h1) = refuse-ok (is_empty m.mac) mac_required _ h in
    let (_, h2) = refuse-ok (is_empty m.inner_ip) inner_ip_required _ h1 in
    let (_, h3) = refuse-ok (m.fd_count == 0) fd_count_required _ h2 in
    sent_line
      (refuse-ok (ltb max_payload_size (length (payload_line m ++ 0 ∷ []))) too_large _ h3).1
  where
    sent_line : {x y : Bytes} → ◌≡◌ {A = Result PayloadError Bytes} (ok x) (ok y) → y ≡ x
    sent_line e = cc

-- What the sender marshals, with any bytes behind it, is parsed to the same metadata, whenever the
-- address texts are words without NUL and the numbers fit their types.
pub marshal-parse :
    (m : PortMetadata) (sent more : Bytes)
    → IsMetadata m
    → marshal m ≡ ok sent
    → parse_payload (sent ++ more) ≡ ok m
unfolding parse_payload
marshal-parse m sent more v h =
    ap (λ s. parse_payload (s ++ more)) (marshal-line m sent h)
    ∙ ap parse_payload (append_assoc (payload_line m) (0 ∷ []) more)
    ∙ ap (λ s. store_tokens (fields s) no_metadata)
        (before_nul-append (payload_line m) more (payload_line_no_nul m v))
    ∙ ap (λ ts. store_tokens ts no_metadata) (fields-payload_line m v)
    ∙ store_tokens-tokens_of m.port m.fd_count m.netns_fd_count m.mac m.inner_ip v.port_fits
        v.fd_fits v.netns_fits
