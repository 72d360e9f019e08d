-- ===== src/Tapfd/Receive.antt =====
-- The receiver of pkg/tapfd/recv.go. A descriptor is its number; the model returns which descriptors were closed.
pub mod Accounts
use connector.Base.{
  ℕ, ◌+◌, ◌-◌, Bool, true, false, Option, none, some, List, [], ◌∷◌, ◌++◌, Result, ok, err, ltb,
  ◌==◌, not, ◌&&◌, if◌then◌else◌, Bytes, length, take, drop,
}
use connector.Text.{is_empty}
use connector.Tapfd.Response.{ResponseError, ProviderError, parse_error_response, strip_ok_response}
use connector.Tapfd.Payload.{PortMetadata, PayloadError, parse_payload}

pub data ReceiveError : Type 0 where
  recvmsg_failed empty_payload bad_ancillary bad_rights no_fds : ReceiveError
  response : ResponseError → ReceiveError
  provider : ProviderError → ReceiveError
  payload : PayloadError → ReceiveError
  too_many_netns count_mismatch new_file_failed not_one_fd : ReceiveError

-- A control message: whether it carries SCM_RIGHTS, and what parsing its rights gives.
pub record ControlMessage : Type 0 where
  pub is_rights : Bool
  pub rights : Option (List ℕ)

-- What one recvmsg gives; `control` is none where the ancillary data cannot be parsed.
pub record Message : Type 0 where
  pub bytes : Bytes
  pub control : Option (List ControlMessage)

-- An outcome: the descriptors handed out, or the error, and the descriptors closed.
pub record Handed : Type 0 where
  pub taps : List ℕ
  pub netns : Option ℕ
  pub meta : PortMetadata

abbrev pub Received : Type 0
Received = Result ReceiveError Handed × List ℕ

abbrev pub taken_rights : ControlMessage → Option (List ℕ)
taken_rights s = if s.is_rights then s.rights else some []

abbrev pub collect_on : Option (List ℕ) → List ℕ → (List ℕ → Bool × List ℕ) → Bool × List ℕ
collect_on none fds next = (false, fds)
collect_on (some more) fds next = next (fds ++ more)

-- The loop over the control messages: whether each was parsed, and the descriptors.
unfoldable pub collect : List ControlMessage → List ℕ → Bool × List ℕ
collect [] fds = (true, fds)
collect (s ∷ ss) fds = collect_on (taken_rights s) fds (collect ss)

-- A payload without descriptors: the provider's error, if it is one.
abbrev pub provider_error : Option (Result ResponseError ProviderError) → ReceiveError
provider_error none = no_fds
provider_error (some (ok e)) = provider e
provider_error (some (err e)) = response e

-- The check of the counts; a count of no tap descriptors leaves their number open.
abbrev pub counts_agree : PortMetadata → ℕ → Bool
counts_agree m total =
    if not (m.fd_count == 0)
    then total == m.fd_count + m.netns_fd_count
    else not (ltb total m.netns_fd_count)

-- `os.NewFile` for each descriptor: whether all were wrapped, those before the failure, the rest.
abbrev pub all_wrap : (ℕ → Bool) → List ℕ → Bool
all_wrap new_file [] = true
all_wrap new_file (fd ∷ fds) = new_file fd && all_wrap new_file fds

abbrev pub first_of : List ℕ → Option ℕ
first_of [] = none
first_of (fd ∷ _) = some fd

-- The trailing namespace descriptors are cut off; at most one is there.
abbrev pub split_files : PortMetadata → List ℕ → Handed
split_files m fds =
    let cut = length fds - m.netns_fd_count in
    record { taps = take cut fds; netns = first_of (drop cut fds); meta = m }

abbrev pub hand_out : (ℕ → Bool) → PortMetadata → List ℕ → Received
hand_out new_file m fds =
    if ltb 1 m.netns_fd_count
    then (err too_many_netns, fds)
    else if not (counts_agree m (length fds))
    then (err count_mismatch, fds)
    else if all_wrap new_file fds
    then (ok (split_files m fds), [])
    else (err new_file_failed, fds)

abbrev pub with_payload : (ℕ → Bool) → Result PayloadError PortMetadata → List ℕ → Received
with_payload new_file (err e) fds = (err (payload e), fds)
with_payload new_file (ok m) fds = hand_out new_file m fds

abbrev pub with_response : (ℕ → Bool) → Result ResponseError Bytes → List ℕ → Received
with_response new_file (err e) fds = (err (response e), fds)
with_response new_file (ok rest) fds = with_payload new_file (parse_payload rest) fds

abbrev pub with_fds : (ℕ → Bool) → Bytes → Bool × List ℕ → Received
with_fds new_file bytes (false, fds) = (err bad_rights, fds)
with_fds new_file bytes (true, []) = (err (provider_error (parse_error_response bytes)), [])
with_fds new_file bytes (true, fd ∷ fds) =
    with_response new_file (strip_ok_response bytes) (fd ∷ fds)

abbrev pub with_control : (ℕ → Bool) → Bytes → Option (List ControlMessage) → Received
with_control new_file bytes none = (err bad_ancillary, [])
with_control new_file bytes (some ss) = with_fds new_file bytes (collect ss [])

-- None is a failed recvmsg.
unfoldable pub recv_fds_with_netns : (ℕ → Bool) → Option Message → Received
recv_fds_with_netns new_file none = (err recvmsg_failed, [])
recv_fds_with_netns new_file (some msg) =
    if is_empty msg.bytes
    then (err empty_payload, [])
    else with_control new_file msg.bytes msg.control

abbrev pub list_of : Option ℕ → List ℕ
list_of none = []
list_of (some fd) = fd ∷ []

abbrev pub without_netns : Received → Received
without_netns (err e, closed) = (err e, closed)
without_netns (ok h, closed) = (ok (record h { netns = none }), closed ++ list_of h.netns)

unfoldable pub recv_fds : (ℕ → Bool) → Option Message → Received
recv_fds new_file msg = without_netns (recv_fds_with_netns new_file msg)

abbrev pub only_one : Received → Received
only_one (err e, closed) = (err e, closed)
only_one (ok h, closed) =
    if length h.taps == 1 then (ok h, closed) else (err not_one_fd, closed ++ h.taps)

unfoldable pub recv_fd : (ℕ → Bool) → Option Message → Received
recv_fd new_file msg = only_one (recv_fds new_file msg)
