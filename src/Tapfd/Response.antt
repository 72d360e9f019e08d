-- ===== src/Tapfd/Response.antt =====
-- The one-line responses of pkg/tapfd/request.go.
pub mod RoundTrip
use connector.Base.{
  ℕ, ◌+◌, Bool, true, false, ◌||◌, ◌&&◌, not, Option, none, some, List, [], ◌∷◌, ◌++◌, Result, ok,
  err, ensure, refuse, ◌>>◌, ◌>>=◌, ltb, ◌==◌, if◌then◌else◌, Bytes, bytes_eq, length,
}
use connector.Text.{codes, fields, trim_space, has_byte, cut, is_empty, strip_prefix}
use connector.Tapfd.Request.{request_version, request_max_line_size, breaks_line, with_extra}

pub data ResponseError : Type 0 where
  line_break too_long empty_payload not_terminated empty_response : ResponseError
  malformed_response malformed_token : ResponseError

abbrev pub max_payload_size : ℕ
max_payload_size = 512

abbrev pub ok_line : Bytes
ok_line = codes "TAPFD/1 OK"

abbrev pub ok_prefix : Bytes
ok_prefix = codes "TAPFD/1 OK "

unfoldable pub build_ok_line : Bytes → Result ResponseError Bytes
build_ok_line extra = do
  let e = trim_space extra
  let line = with_extra ok_line e
  refuse (breaks_line e) line_break
  refuse (ltb request_max_line_size (length line + 1)) too_long
  ok (line ++ b'\n' ∷ [])

unfoldable pub build_ok_response : Bytes → Result ResponseError Bytes
build_ok_response payload = do
  refuse (is_empty payload) empty_payload
  ensure (has_byte 0 payload) not_terminated
  refuse (ltb max_payload_size (length ok_prefix + length payload)) too_long
  ok (ok_prefix ++ payload)

abbrev pub after_prefix : Bytes → Option Bytes → Result ResponseError Bytes
after_prefix payload none = ok payload
after_prefix payload (some []) = err empty_response
after_prefix payload (some (c ∷ cs)) = ok (c ∷ cs)

unfoldable pub strip_ok_response : Bytes → Result ResponseError Bytes
strip_ok_response payload = after_prefix payload (strip_prefix ok_prefix payload)

abbrev pub sanitize_byte : ℕ → ℕ
sanitize_byte c =
    if c == b'=' || c == 0 || c == b'\n' || c == b'\r'
    then b'_'
    else if c == b' ' || c == b'\t'
    then b'_'
    else c

abbrev pub sanitized : Bytes → Bytes
sanitized [] = []
sanitized (c ∷ cs) = sanitize_byte c ∷ sanitized cs

unfoldable pub sanitize_token : Bytes → Bytes
sanitize_token v = sanitized (trim_space v)

abbrev pub default_to : Bytes → Bytes → Bytes
default_to d [] = d
default_to d (c ∷ cs) = c ∷ cs

abbrev pub provider_internal : Bytes
provider_internal = codes "PROVIDER_INTERNAL"

abbrev pub err_line : Bytes → Bytes → Bytes
err_line code message =
    codes "TAPFD/1 ERR code=" ++ (code ++ (codes " message=" ++ (message ++ b'\n' ∷ [])))

unfoldable pub build_error_response : Bytes → Bytes → Bytes
build_error_response code message =
    err_line (default_to provider_internal (sanitize_token code))
      (default_to (codes "error") (sanitize_token message))

pub record ProviderError : Type 0 where
  pub code : Bytes
  pub message : Bytes

abbrev pub store_token : Bytes → Bytes → ProviderError → ProviderError
store_token key value e =
    if bytes_eq key (codes "code")
    then record e { code = value }
    else if bytes_eq key (codes "message")
    then record e { message = value }
    else e

abbrev pub take_cut : Option (Bytes × Bytes) → ProviderError → Result ResponseError ProviderError
take_cut none e = err malformed_token
take_cut (some ([], value)) e = err malformed_token
take_cut (some (c ∷ cs, value)) e = ok (store_token (c ∷ cs) value e)

abbrev pub with_code : ProviderError → ProviderError
with_code e = record e { code = default_to provider_internal e.code }

-- The loop over the tokens and the default code behind it.
unfoldable pub take_error_tokens : List Bytes → ProviderError → Result ResponseError ProviderError
take_error_tokens [] e = ok (with_code e)
take_error_tokens (t ∷ ts) e = take_cut (cut b'=' t) e >>= take_error_tokens ts

abbrev pub parse_error_tokens : List Bytes → Result ResponseError ProviderError
parse_error_tokens (version ∷ status ∷ t ∷ ts) =
    if bytes_eq version request_version && bytes_eq status (codes "ERR")
    then take_error_tokens (t ∷ ts) (record { code = []; message = [] })
    else err malformed_response
parse_error_tokens _ = err malformed_response

abbrev pub is_some {ℓ} : {A : Type ℓ} → Option A → Bool
is_some none = false
is_some (some _) = true

-- None if the payload is no error line.
unfoldable pub parse_error_response : Bytes → Option (Result ResponseError ProviderError)
parse_error_response payload =
    let line = trim_space payload in
    if is_empty line || not (is_some (strip_prefix (codes "TAPFD/1 ERR") line))
    then none
    else some (parse_error_tokens (fields line))
