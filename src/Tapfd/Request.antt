-- ===== src/Tapfd/Request.antt =====
-- The request lines of pkg/tapfd/request.go, and the reading of a line by the provider
-- (cmd/connector-ctl/tapfd_server.go, readTapFDRequestLine).
pub mod Tokens
pub mod RoundTrip
use connector.Base.{
  ℕ, ◌+◌, Bool, true, false, ◌&&◌, ◌||◌, not, Option, none, some, List, [], ◌∷◌, ◌++◌, Result, ok,
  err, ensure, refuse, ◌>>◌, ◌>>=◌, ltb, ◌==◌, if◌then◌else◌, Bytes, bytes_eq, length,
}
use connector.Text.{codes, fields, trim_space, trim_right, has_byte, cut, is_empty}

pub record Field : Type 0 where
  pub key : Bytes
  pub value : Bytes

-- The map of fields is a list with the latest entry of a key first.
pub record Request : Type 0 where
  pub version : Bytes
  pub op : Bytes
  pub want_netns : Bool
  pub entries : List Field

pub data RequestError : Type 0 where
  unsupported_op line_break too_long empty_request malformed : RequestError
  unsupported_version malformed_token has_nul read_failed : RequestError

abbrev pub request_version : Bytes
request_version = codes "TAPFD/1"

abbrev pub request_max_line_size : ℕ
request_max_line_size = 512

abbrev pub request_ops : List Bytes
request_ops =
    codes "INFO" ∷ codes "OPEN" ∷ codes "PREPARE" ∷ codes "RELEASE" ∷ codes "SET_PORT_UP" ∷ []

abbrev pub one_of : Bytes → List Bytes → Bool
one_of s [] = false
one_of s (t ∷ ts) = bytes_eq s t || one_of s ts

unfoldable pub valid_request_op : Bytes → Bool
valid_request_op op = one_of op request_ops

abbrev pub breaks_line : Bytes → Bool
breaks_line s = has_byte b'\r' s || has_byte b'\n' s || has_byte 0 s

abbrev pub with_extra : Bytes → Bytes → Bytes
with_extra line extra = if is_empty extra then line else line ++ b' ' ∷ extra

abbrev pub with_netns : Bool → Bytes → Bytes
with_netns true line = line ++ codes " want_netns=1"
with_netns false line = line

abbrev pub request_line : Bytes → Bytes → Bool → Bytes
request_line op extra want = with_extra (with_netns want (request_version ++ b' ' ∷ op)) extra

unfoldable pub build_request : Bytes → Bytes → Bool → Result RequestError Bytes
build_request op extra want = do
  let e = trim_space extra
  let line = request_line op e want
  ensure (valid_request_op op) unsupported_op
  refuse (breaks_line e) line_break
  refuse (ltb request_max_line_size (length line + 1)) too_long
  ok (line ++ b'\n' ∷ [])

-- Lower case, for ASCII.
abbrev pub lower : Bytes → Bytes
lower [] = []
lower (c ∷ cs) = (if not (ltb c b'A') && not (ltb b'Z' c) then c + 32 else c) ∷ lower cs

unfoldable pub is_truthy : Bytes → Bool
is_truthy v =
    one_of (lower (trim_space v)) (codes "1" ∷ codes "true" ∷ codes "yes" ∷ codes "on" ∷ [])

abbrev pub store_field : Bytes → Bytes → Request → Request
store_field key value req =
    if one_of key (codes "want_netns" ∷ codes "TAPFD_WANT_NETNS" ∷ [])
    then record req { want_netns = is_truthy value }
    else record req { entries = record { key = key; value = value } ∷ req.entries }

abbrev pub take_cut : Option (Bytes × Bytes) → Request → Result RequestError Request
take_cut none req = err malformed_token
take_cut (some ([], value)) req = err malformed_token
take_cut (some (c ∷ cs, value)) req = ok (store_field (c ∷ cs) value req)

-- The loop over the tokens behind the operation.
unfoldable pub take_tokens : List Bytes → Request → Result RequestError Request
take_tokens [] req = ok req
take_tokens (t ∷ ts) req = take_cut (cut b'=' t) req >>= take_tokens ts

abbrev pub parse_tokens : List Bytes → Result RequestError Request
parse_tokens (version ∷ op ∷ rest) = do
  ensure (bytes_eq version request_version) unsupported_version
  ensure (valid_request_op op) unsupported_op
  take_tokens rest (record { version = version; op = op; want_netns = false; entries = [] })
parse_tokens _ = err malformed

abbrev pub parse_trimmed : Bytes → Result RequestError Request
parse_trimmed line = do
  refuse (is_empty line) empty_request
  refuse (ltb request_max_line_size (length line + 1)) too_long
  parse_tokens (fields line)

unfoldable pub parse_request_line : Bytes → Result RequestError Request
parse_request_line line = parse_trimmed (trim_right (λ c. c == b'\r') (trim_space line))

-- How the stream ends behind its bytes.
pub data StreamEnd : Type 0 where
  eof failed : StreamEnd

abbrev pub at_end : StreamEnd → Bytes → Result RequestError Bytes
at_end eof (c ∷ cs) = ok (c ∷ cs)
at_end _ _ = err read_failed

-- The loop that reads a byte at a time, with the bytes that are still to arrive.
unfoldable pub read_onto : StreamEnd → Bytes → Bytes → Result RequestError Bytes
read_onto end buf [] =
    if ltb (length buf) request_max_line_size then at_end end buf else err too_long
read_onto end buf (c ∷ cs) =
    let rest = read_onto end (buf ++ c ∷ []) cs in
    if not (ltb (length buf) request_max_line_size)
    then err too_long
    else if c == b'\n'
    then ok buf
    else if c == 0
    then err has_nul
    else rest

unfoldable pub read_request_line : StreamEnd → Bytes → Result RequestError Bytes
unfolding read_onto
read_request_line end stream = read_onto end [] stream

-- The first of the names that has a value.
abbrev pub field_value : Bytes → List Field → Option Bytes
field_value key [] = none
field_value key (f ∷ fs) = if bytes_eq key f.key then some f.value else field_value key fs

abbrev pub or_else : Option Bytes → Bytes → Bytes
or_else (some (c ∷ cs)) next = c ∷ cs
or_else _ next = next

unfoldable pub request_field : List Bytes → Request → Bytes
request_field [] req = []
request_field (n ∷ ns) req = or_else (field_value n req.entries) (request_field ns req)
