-- ===== src/Dhcp/Client/Attempts.antt =====
-- Which attempt's lease a request returns.
use connector.Base.{
  pos, ℕ, zero, suc, ◌+◌, ◌≤◌, ◌<◌, ◌≡◌, ◌≢◌, ◌⊎◌, ◌∙◌, ap, sym, refl, Bool, true, false, ◌&&◌,
  Option, none, some, Result, ok, err, ltb, if◌then◌else◌, length, arith, ==_ne, Result-cases, inl,
  inr,
}
use connector.Dhcp.Client.{
  cancelled, ClientLease, RequestOptions, AttemptError, RequestError, Attempt, ClientAnswers,
  do_request, after_attempt, attempts_from, retries_or_default, timeout_or_default, request,
}

-- The context is not cancelled up to attempt `i`.
abbrev pub Runs : (ℕ → Attempt) → ℕ → Type 0
Runs a i = (j : ℕ) → j ≤ i → ((a j).cancelled_before ≡ false) × ((a j).cancelled_after ≡ false)

-- The lease is that of attempt `j`, the first from `n` on that succeeds.
pub record IsFirst (a : ℕ → Attempt) (n j : ℕ) (l : ClientLease) : Type 0 where
  pub late : n ≤ j
  pub leased : do_request (a j) ≡ ok l
  pub failed : (h : ℕ) → n ≤ h → h < j → (e : AttemptError) × (do_request (a h) ≡ err e)

this_attempt :
    (a : ℕ → Attempt) (left n : ℕ) (last : Option AttemptError) (m : ClientLease)
    → do_request (a n) ≡ ok m
    → ((a n).cancelled_before ≡ false) × ((a n).cancelled_after ≡ false)
    → attempts_from a (suc left) n last ≡ ok m
this_attempt a left n last m is (before, after) = rw (is, before) (ground arith)

next_attempt :
    (a : ℕ → Attempt) (left n : ℕ) (last : Option AttemptError) (e : AttemptError)
    → do_request (a n) ≡ err e
    → ((a n).cancelled_before ≡ false) × ((a n).cancelled_after ≡ false)
    → attempts_from a (suc left) n last ≡ attempts_from a left (suc n) (some e)
next_attempt a left n last e is (before, after) = rw (is, before, after) (ground arith)

eq_or_lt : (n h : ℕ) → n ≤ h → (n ≡ h) ⊎ (suc n ≤ h)
eq_or_lt n h le = ground arith

attempts_from-IsFirst :
    (a : ℕ → Attempt) (left n i : ℕ) (last : Option AttemptError) (l : ClientLease)
    → n ≤ i
    → i < n + left
    → Runs a i
    → do_request (a i) ≡ ok l
    → (j : ℕ) × (m : ClientLease) × (attempts_from a left n last ≡ ok m) × (j ≤ i) × IsFirst a n j m
attempts_from-IsFirst a zero n i last l le lt runs good = absurd (omega arith)
attempts_from-IsFirst a (suc left) n i last l le lt runs good =
    elim (Result-cases (do_request (a n))) [
      | inl (m, is) ↦ (
        n,
        m,
        ground (arith, runs n le, is),
        le,
        record { late = omega arith; leased = is; failed = λ h low high. absurd (omega arith) },
      )
      | inr (e, is) ↦
          let ne = differs e is in
          let (j, m, gives, below, first) =
            attempts_from-IsFirst a left (suc n) i (some e) l (omega (arith, ne)) (omega arith) runs
              good in
          (
            j,
            m,
            next_attempt a left n last e is (runs n le) ∙ gives,
            below,
            record {
              late = omega (arith, first.late);
              leased = first.leased;
              failed = λ h low high. earlier n j e is (first.failed) h low high;
            },
          )
    ]
  where
    fails_not :
        (l : ClientLease) (e : AttemptError)
        → Path (Result AttemptError ClientLease) (ok l) (err e)
        → ⊥
    fails_not l e h = cc

    differs : (e : AttemptError) → do_request (a n) ≡ err e → n ≢ i
    differs e is same = fails_not l e (sym good ∙ sym (ap (λ h. do_request (a h)) same) ∙ is)

    earlier :
        (n j : ℕ) (e : AttemptError)
        → do_request (a n) ≡ err e
        → ((h : ℕ) → suc n ≤ h → h < j → (e : AttemptError) × (do_request (a h) ≡ err e))
        → (h : ℕ) → n ≤ h
        → h < j
        → (e : AttemptError) × (do_request (a h) ≡ err e)
    earlier n j e is rest h low high = elim (eq_or_lt n h low) [
      | inl same ↦ (e, sym (ap (λ h. do_request (a h)) same) ∙ is)
      | inr lt ↦ rest h lt high
    ]

-- For a named interface that is found, in a context that is not cancelled, a request some attempt of which succeeds within its retries returns the
-- lease of the first attempt that does.
pub request-lease :
    (k : ClientAnswers) (opts : RequestOptions) (n i : ℕ) (l : ClientLease)
    → length opts.interface ≢ 0
    → k.interface ≡ true
    → retries_or_default opts.retries ≡ pos n
    → i ≤ n
    → Runs (k.attempts (timeout_or_default opts.timeout)) i
    → do_request (k.attempts (timeout_or_default opts.timeout) i) ≡ ok l
    → (j : ℕ) × (m : ClientLease) × (request k opts ≡ ok m)
      × (j ≤ i)
      × IsFirst (k.attempts (timeout_or_default opts.timeout)) 0 j m
unfolding request
request-lease k opts n i l named known retries few runs good =
    let a = k.attempts (timeout_or_default opts.timeout) in
    rw (==_ne (length opts.interface) 0 named, known, retries)
      (attempts_from-IsFirst a (suc n) 0 i none l (omega arith) (omega (arith, few)) runs good)

-- A lease that is returned is that of an attempt within the retries.
attempts_from_sound :
    (a : ℕ → Attempt) (left n : ℕ) (last : Option AttemptError) (l : ClientLease)
    → attempts_from a left n last ≡ ok l
    → (j : ℕ) × (j < n + left) × (do_request (a j) ≡ ok l)
attempts_from_sound a zero n last l h = cc
attempts_from_sound a (suc left) n last l h =
    by_attempt (do_request (a n)) (a n).cancelled_after refl
      (passed (ltb 0 n && (a n).cancelled_before) _ h)
      (λ e. attempts_from_sound a left (suc n) (some e) l)
  where
    passed :
        (b : Bool) (r : Result RequestError ClientLease)
        → (if b then err cancelled else r) ≡ ok l
        → r ≡ ok l
    passed true r h = cc
    passed false r h = h

    by_attempt :
        (r : Result AttemptError ClientLease) (stops : Bool)
        → do_request (a n) ≡ r
        → after_attempt r stops (λ e. attempts_from a left (suc n) (some e)) ≡ ok l
        → ((e : AttemptError)
            → attempts_from a left (suc n) (some e) ≡ ok l
            → (j : ℕ) × (j < suc n + left) × (do_request (a j) ≡ ok l))
        → (j : ℕ) × (j < n + suc left) × (do_request (a j) ≡ ok l)
    by_attempt (ok m) stops is h rest = (n, omega arith, is ∙ ground (arith, h))
    by_attempt (err e) true is h rest = cc
    by_attempt (err e) false is h rest =
        let (j, lt, good) = rest e h in (j, omega (arith, lt), good)
