-- ===== src/Tapfd/Provider/Ports.antt =====
-- INFO, RELEASE and SET_PORT_UP of the tap descriptor provider (cmd/connector-ctl/tapfd_server.go).
use connector.Base.{
  ℕ, ◌≡◌, refl, ◌≢◌, Bool, true, false, Option, none, some, List, [], ◌∷◌, ◌++◌, Result, ok, err,
  ◌==◌, if◌then◌else◌, Bytes,
}
use connector.Switch.{SwitchContext, World, Kernel, SwitchError}
use connector.Attach.Options.{AttachOptions}
use connector.Attach.Success.{IsQuiet}
use connector.Detach.{detach}
use connector.Detach.Quiet.{detach_refused}
use connector.PortUp.{set_port_up}
use connector.PortUp.Validate.{PortUpOptions}
use connector.PortUp.Outcome.{set_port_up_refused}
use connector.Text.{codes, format_uint, parse_uint}
use connector.Tapfd.Request.{Request, request_field, field_value}
use connector.Tapfd.Response.{ResponseError, build_ok_line}
use connector.Tapfd.Provider.{
  Parsers, OptionsError, PrepareReply, refused, bad_request, port_invalid, provider_internal,
  tapfd_error_code, sent_line, send_tapfd_ok, prepare_attach_options,
}

-- `strconv.Atoi` for a port: a number above 0, with or without a plus sign.
abbrev positive : Option ℕ → Option ℕ
positive none = none
positive (some n) = if n == 0 then none else some n

unfoldable pub positive_port : Bytes → Option ℕ
positive_port [] = none
positive_port (c ∷ cs) =
    positive (parse_uint 9223372036854775808 (if c == b'+' then cs else c ∷ cs))

abbrev pub port_of : Request → Option ℕ
port_of req = positive_port (request_field (codes "port" ∷ codes "PORT" ∷ []) req)

unfoldable pub handle_tapfd_info : SwitchContext → Bool → PrepareReply
unfolding send_tapfd_ok
handle_tapfd_info s written =
    send_tapfd_ok written (codes "generation_bits=" ++ format_uint s.cfg.generation_bits)

-- The operation's outcome with the line that reports its success.
abbrev pub outcome_of : Bool → Bytes → Result SwitchError (Unit {0}) × World → PrepareReply × World
outcome_of written line (err e, w) = (refused (tapfd_error_code e), w)
outcome_of written line (ok _, w) = (send_tapfd_ok written line, w)

abbrev pub release_port : Kernel → SwitchContext → Bool → Option ℕ → World → PrepareReply × World
release_port k s written none w = (refused port_invalid, w)
release_port k s written (some port) w =
    outcome_of written (codes "port=" ++ (format_uint port ++ codes " released=1"))
      (detach k s (record { port = port; from_netns = []; skip_device = false }) w)

unfoldable pub handle_tapfd_release :
    Kernel → SwitchContext → Bool → Request → World → PrepareReply × World
unfolding send_tapfd_ok positive_port
handle_tapfd_release k s written req w = release_port k s written (port_of req) w

-- Whether the request has one of the fields.
abbrev pub has_field : List Bytes → Request → Bool
has_field [] req = false
has_field (key ∷ keys) req = elim (field_value key req.entries) [
  | some _ ↦ true
  | none ↦ has_field keys req
]

abbrev pub port_up_options : ℕ → AttachOptions → PortUpOptions
port_up_options port o = record {
  port = port;
  inner_ip = o.inner_ip;
  transit_gateway_ip = o.transit_gateway_ip;
  transit_geneve_vni = o.transit_geneve_vni;
  transit_geneve_opts = o.transit_geneve_opts;
  transit_mac = o.transit_mac;
}

abbrev pub raise_port :
    Kernel
    → SwitchContext
    → Bool
    → ℕ
    → Result OptionsError AttachOptions
    → World
    → PrepareReply × World
raise_port k s written port (err _) w = (refused bad_request, w)
raise_port k s written port (ok o) w =
    outcome_of written (codes "port=" ++ (format_uint port ++ codes " admin_down=0"))
      (set_port_up k s (port_up_options port o) w)

abbrev pub raise_checked :
    Parsers → Kernel → SwitchContext → Bool → Request → Option ℕ → World → PrepareReply × World
raise_checked ps k s written req none w = (refused port_invalid, w)
raise_checked ps k s written req (some port) w =
    if has_field
      (codes "generation" ∷ codes "GENERATION" ∷ codes "admin_down" ∷ codes "ADMIN_DOWN" ∷ []) req
    then (refused bad_request, w)
    else raise_port k s written port (prepare_attach_options ps req) w

unfoldable pub handle_tapfd_set_port_up :
    Parsers → Kernel → SwitchContext → Bool → Request → World → PrepareReply × World
unfolding send_tapfd_ok positive_port prepare_attach_options
handle_tapfd_set_port_up ps k s written req w = raise_checked ps k s written req (port_of req) w

-- An answer that says that the request was refused, and not that the answer failed.
abbrev pub IsRefusal : PrepareReply → Type 0
IsRefusal (refused c) = c ≢ provider_internal
IsRefusal _ = ⊥

sent_no_refusal :
    (written : Bool) (r : Result ResponseError Bytes) → IsRefusal (sent_line written r) → ⊥
sent_no_refusal written (err e) h = h refl
sent_no_refusal true (ok line) h = h
sent_no_refusal false (ok line) h = h

outcome_of_refused :
    (written : Bool) (line : Bytes) (r : Result SwitchError (Unit {0}) × World) (w : World)
    → ((e : SwitchError) (v : World) → r ≡ (err e, v) → v ≡ w)
    → IsRefusal (outcome_of written line r).0
    → (outcome_of written line r).1 ≡ w
unfolding send_tapfd_ok
outcome_of_refused written line (err e, v) w keeps h = keeps e v refl
outcome_of_refused written line (ok _, v) w keeps h =
    absurd (sent_no_refusal written (build_ok_line line) h)

-- When no other process interferes, a RELEASE that the client is told was refused, for any reason but
-- an internal one, has changed nothing.
pub handle_tapfd_release_refused :
    (k : Kernel) (s : SwitchContext) (written : Bool) (req : Request) (w : World)
    → IsQuiet k
    → IsRefusal (handle_tapfd_release k s written req w).0
    → (handle_tapfd_release k s written req w).1 ≡ w
unfolding handle_tapfd_release
handle_tapfd_release_refused k s written req w q h = released (port_of req) h
  where
    released :
        (p : Option ℕ)
        → IsRefusal (release_port k s written p w).0
        → (release_port k s written p w).1 ≡ w
    released none h = refl
    released (some port) h =
        outcome_of_refused written _ _ w (λ e v eq. detach_refused k s _ w v e q eq) h

raise_port_refused :
    (k : Kernel) (s : SwitchContext) (written : Bool) (port : ℕ)
    (o : Result OptionsError AttachOptions) (w : World)
    → IsQuiet k
    → IsRefusal (raise_port k s written port o w).0
    → (raise_port k s written port o w).1 ≡ w
raise_port_refused k s written port (err e) w q h = refl
raise_port_refused k s written port (ok o) w q h =
    outcome_of_refused written _ _ w (λ e v eq. set_port_up_refused k s _ w v e q eq) h

-- When no other process interferes, a SET_PORT_UP that the client is told was refused, for any reason but
-- an internal one, has changed nothing.
pub handle_tapfd_set_port_up_refused :
    (ps : Parsers) (k : Kernel) (s : SwitchContext) (written : Bool) (req : Request) (w : World)
    → IsQuiet k
    → IsRefusal (handle_tapfd_set_port_up ps k s written req w).0
    → (handle_tapfd_set_port_up ps k s written req w).1 ≡ w
unfolding handle_tapfd_set_port_up
handle_tapfd_set_port_up_refused ps k s written req w q h = raised (port_of req) h
  where
    checked :
        (port : ℕ) (b : Bool)
        → IsRefusal
            (if b
              then (refused bad_request, w)
              else raise_port k s written port (prepare_attach_options ps req) w).0
        → (if b
            then (refused bad_request, w)
            else raise_port k s written port (prepare_attach_options ps req) w).1
          ≡ w
    checked port true h = refl
    checked port false h = raise_port_refused k s written port (prepare_attach_options ps req) w q h

    raised :
        (p : Option ℕ)
        → IsRefusal (raise_checked ps k s written req p w).0
        → (raise_checked ps k s written req p w).1 ≡ w
    raised none h = refl
    raised (some port) h = checked port _ h
