-- ===== src/Tapfd/Payload.antt =====
-- The metadata line that goes with the descriptors: pkg/tapfd/payload.go.
pub mod RoundTrip
use connector.Base.{
  ℕ, ◌+◌, Bool, true, false, Option, none, some, List, [], ◌∷◌, ◌++◌, Result, ok, err, refuse, ◌>>◌,
  ◌>>=◌, ltb, ◌==◌, if◌then◌else◌, Bytes, bytes_eq, length,
}
use connector.Text.{codes, fields, cut, is_empty, before_nul, format_uint, parse_uint}
use connector.Tapfd.Response.{max_payload_size}

pub record PortMetadata : Type 0 where
  pub port : ℕ
  pub mac : Bytes
  pub inner_ip : Bytes
  pub fd_count : ℕ
  pub netns_fd_count : ℕ

pub data PayloadError : Type 0 where
  mac_required inner_ip_required fd_count_required too_large : PayloadError
  malformed_token bad_number : PayloadError

abbrev pub netns_part : ℕ → Bytes
netns_part n = if n == 0 then [] else codes " netns_fd=" ++ format_uint n

abbrev pub payload_line : PortMetadata → Bytes
payload_line m =
    codes "port="
    ++ (format_uint m.port
        ++ (codes " mac="
            ++ (m.mac
                ++ (codes " ip="
                    ++ (m.inner_ip
                        ++ (codes " fd="
                            ++ (format_uint m.fd_count ++ netns_part m.netns_fd_count)))))))

unfoldable pub marshal : PortMetadata → Result PayloadError Bytes
marshal m = do
  let out = payload_line m ++ 0 ∷ []
  refuse (is_empty m.mac) mac_required
  refuse (is_empty m.inner_ip) inner_ip_required
  refuse (m.fd_count == 0) fd_count_required
  refuse (ltb max_payload_size (length out)) too_large
  ok out

abbrev pub with_number : Option ℕ → (ℕ → PortMetadata) → Result PayloadError PortMetadata
with_number none f = err bad_number
with_number (some n) f = ok (f n)

abbrev pub store_key : Bytes → Bytes → PortMetadata → Result PayloadError PortMetadata
store_key key val m =
    if bytes_eq key (codes "port")
    then with_number (parse_uint 4294967296 val) (λ n. record m { port = n })
    else if bytes_eq key (codes "mac")
    then ok (record m { mac = val })
    else if bytes_eq key (codes "ip")
    then ok (record m { inner_ip = val })
    else if bytes_eq key (codes "fd")
    then with_number (parse_uint 256 val) (λ n. record m { fd_count = n })
    else if bytes_eq key (codes "netns_fd")
    then with_number (parse_uint 256 val) (λ n. record m { netns_fd_count = n })
    else ok m

abbrev pub store_cut : Option (Bytes × Bytes) → PortMetadata → Result PayloadError PortMetadata
store_cut none m = err malformed_token
store_cut (some (key, val)) m = store_key key val m

unfoldable pub store_tokens : List Bytes → PortMetadata → Result PayloadError PortMetadata
store_tokens [] m = ok m
store_tokens (t ∷ ts) m = store_cut (cut b'=' t) m >>= store_tokens ts

abbrev pub no_metadata : PortMetadata
no_metadata = record { port = 0; mac = []; inner_ip = []; fd_count = 0; netns_fd_count = 0 }

unfoldable pub parse_payload : Bytes → Result PayloadError PortMetadata
parse_payload buf = store_tokens (fields (before_nul buf)) no_metadata
