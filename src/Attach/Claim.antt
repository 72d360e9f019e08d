-- ===== src/Attach/Claim.antt =====
-- What the validation of Attach and its claim of a slot establish (pkg/vswitch/attach.go).
use mathlib.Core.Path.{subst}
use connector.Base.{
  ℕ, ◌<◌, ◌≡◌, refl, ◌≢◌, Result, ok, err, arith, Bool-cases, inl, inr, sym, leb, ltb, u32, ◌-◌,
  Bytes,
}
use connector.Ip.{ip_to_uint32}
use connector.Slots.{MmappedSlots, inner_ip_free, inner_ip_reserved}
use connector.Slots.Cas.{try_allocate}
use connector.Slots.Laws.{SameBut, try_allocate_wins}
use connector.Slots.Scan.{ScanError, try_allocate-cases, Scanned, find_free_slot-Scanned}
use connector.Geneve.{marshal_geneve_options}
use connector.Switch.Abi.{geneve_locator_from_config, tlv_locator}
use connector.Switch.{World, SwitchContext, SwitchError}
use connector.Switch.Act.{Post}
use connector.Attach.{claim, claimed, found}
use connector.Attach.Options.{AttachOptions, Prepared}
use connector.Attach.Validate.{check_attach, validate_attachment_addresses}

-- The slot was Free, now holds the address, and no other slot changed.
pub record IsClaimed (w : World) (ip slot : ℕ) (w' : World) : Type 0 where
  pub range : slot < w.slots.num_slots
  pub was_free : (w.slots.items slot).inner_ip ≡ inner_ip_free
  pub item : w'.slots.items slot ≡ record (w.slots.items slot) { inner_ip = ip; stats_ready = 0 }
  pub same : SameBut slot w.slots w'.slots
  pub options : w'.geneve_opts ≡ w.geneve_opts

abbrev Claims : World → ℕ → Result SwitchError ℕ × World → Type 0
Claims w ip = Post (IsClaimed w ip) (λ w'. w' ≡ w)

won-IsClaimed :
    (w : World) (i ip : ℕ)
    → i < w.slots.num_slots
    → (w.slots.items i).inner_ip ≡ inner_ip_free
    → IsClaimed w ip i (record w { slots = (try_allocate w.slots i ip).1 })
won-IsClaimed w i ip range free =
    let (_, item, same) = try_allocate_wins w.slots i ip range free in
    record { range = range; was_free = free; item = item; same = same; options = refl }

found-Claims :
    (w : World) (ip : ℕ) (r : Result ScanError ℕ × MmappedSlots)
    → Scanned w.slots ip r
    → Claims w ip (found r w)
found-Claims w ip (ok i, m) (range, free, e) =
    subst (λ n. IsClaimed w ip i (record w { slots = n })) (sym e) (won-IsClaimed w i ip range free)
found-Claims w ip (err x, m) e = rw e refl

claimed-Claims : (w : World) (i ip : ℕ) → Claims w ip (claimed i (try_allocate w.slots i ip) w)
claimed-Claims w i ip = elim (try_allocate-cases w.slots i ip) [
  | inl (won, range, free) ↦ rw won (won-IsClaimed w i ip range free)
  | inr lost ↦ rw lost refl
]

pub claim-Claims :
    (s : SwitchContext) (opts : AttachOptions) (ip : ℕ) (w : World)
    → Claims w ip (claim s opts ip w)
unfolding claim
claim-Claims s opts ip w = elim (Bool-cases (ltb 0 opts.port)) [
  | inr auto ↦ rw auto (found-Claims w ip _ (find_free_slot-Scanned w.slots ip))
  | inl explicit ↦ rw explicit (elim (Bool-cases (leb s.cfg.n_ports (u32 (opts.port - 1)))) [
    | inl out ↦ rw out refl
    | inr within ↦ rw within (claimed-Claims w (u32 (opts.port - 1)) ip)
  ])
]

pub validate_attachment_addresses-ok :
    (inner gateway mac : Bytes) (ip : ℕ)
    → validate_attachment_addresses inner gateway mac ≡ ok ip
    → (ip ≡ ip_to_uint32 inner) × (ip ≢ inner_ip_free) × (ip ≢ inner_ip_reserved)
unfolding validate_attachment_addresses
validate_attachment_addresses-ok inner gateway mac ip h = ground arith

-- What a validated request carries: its address, which is neither sentinel, and its options.
pub check_attach-ok :
    (s : SwitchContext) (opts : AttachOptions) (p : Prepared)
    → check_attach s opts ≡ ok p
    → (p.inner_ip ≡ ip_to_uint32 opts.inner_ip)
      × (p.inner_ip ≢ inner_ip_free)
      × (p.inner_ip ≢ inner_ip_reserved)
      × (marshal_geneve_options
            (geneve_locator_from_config s.cfg)
            (tlv_locator s.cfg)
            opts.transit_geneve_opts
          ≡ ok (p.value, p.total_len))
unfolding check_attach
check_attach-ok s opts p h = ground (
  arith,
  validate_attachment_addresses-ok opts.inner_ip opts.transit_gateway_ip opts.transit_mac
      p.inner_ip,
)
