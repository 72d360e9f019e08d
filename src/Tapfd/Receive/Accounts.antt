-- ===== src/Tapfd/Receive/Accounts.antt =====
-- Every descriptor that arrives is handed out or closed (pkg/tapfd/recv.go), and what a provider sends arrives.
use mathlib.Core.List.{append-nil, append_assoc, Perm, perm_append_comm}
use mathlib.Core.List.Perm
use connector.Base.{
  ℕ, zero, suc, ◌-◌, ◌≤◌, ◌≡◌, refl, sym, ap, ◌∙◌, Bool, true, false, Option, some, none, List, [],
  ◌∷◌, ◌++◌, Result, ok, err, Bytes, arith, ◌==◌, ==_iff, ltb, length, take, drop, Bool-cases, inl,
  inr,
}
use connector.Text.{is_empty}
use connector.Tapfd.Response.{ResponseError, strip_ok_response}
use connector.Tapfd.Payload.{PortMetadata, PayloadError, parse_payload}
use connector.Tapfd.Receive.{
  ControlMessage, Received, taken_rights, collect_on, collect, counts_agree, all_wrap, first_of,
  split_files, hand_out, with_payload, with_response, with_fds, recv_fds_with_netns, list_of,
  without_netns, recv_fds, only_one, recv_fd,
}

-- The descriptors that the control messages carry, up to one that cannot be parsed.
abbrev pub carried : List ControlMessage → List ℕ
carried [] = []
carried (s ∷ ss) = elim (taken_rights s) [ none ↦ [] | some fds ↦ fds ++ carried ss ]

-- The descriptors handed out and those closed are together the ones given, in their order.
abbrev pub Accounts : List ℕ → Received → Type 0
Accounts fds (err e, closed) = closed ≡ fds
Accounts fds (ok h, closed) = h.taps ++ closed ++ list_of h.netns ≡ fds

collect-carried : (ss : List ControlMessage) (fds : List ℕ) → (collect ss fds).1 ≡ fds ++ carried ss
unfolding collect
collect-carried [] fds = sym (append-nil fds)
collect-carried (s ∷ ss) fds = by_rights s ss (taken_rights s) fds (collect-carried ss)
  where
    by_rights :
        (s : ControlMessage) (ss : List ControlMessage) (o : Option (List ℕ)) (fds : List ℕ)
        → ((more : List ℕ) → (collect ss more).1 ≡ more ++ carried ss)
        → (collect_on o fds (collect ss)).1
          ≡ fds ++ elim o as (λ _. List ℕ) [ none ↦ [] | some more ↦ more ++ carried ss ]
    by_rights s ss none fds rest = sym (append-nil fds)
    by_rights s ss (some more) fds rest = rest (fds ++ more) ∙ append_assoc fds more (carried ss)

take-drop {ℓ} : {A : Type ℓ} (n : ℕ) (xs : List A) → take n xs ++ drop n xs ≡ xs
take-drop zero xs = refl
take-drop (suc n) [] = refl
take-drop (suc n) (x ∷ xs) = ap (λ r. x ∷ r) (take-drop n xs)

length-drop {ℓ} : {A : Type ℓ} (n : ℕ) (xs : List A) → length (drop n xs) ≡ length xs - n
length-drop zero xs = omega arith
length-drop (suc n) [] = omega arith
length-drop (suc n) (x ∷ xs) = omega (arith, length-drop n xs)

list_of-first_of : (xs : List ℕ) → length xs ≤ 1 → list_of (first_of xs) ≡ xs
list_of-first_of [] h = refl
list_of-first_of (x ∷ []) h = refl
list_of-first_of (x ∷ y ∷ zs) h = absurd (omega arith)

split_files-Accounts :
    (m : PortMetadata) (fds : List ℕ)
    → m.netns_fd_count ≤ 1
    → Accounts fds (ok (split_files m fds), [])
split_files-Accounts m fds h =
    let cut = length fds - m.netns_fd_count in
    rw
      (
        append-nil (take cut fds),
        list_of-first_of (drop cut fds) (omega (arith, length-drop cut fds)),
      )
      (take-drop cut fds)

hand_out-Accounts :
    (new_file : ℕ → Bool) (m : PortMetadata) (fds : List ℕ) → Accounts fds (hand_out new_file m fds)
hand_out-Accounts new_file m fds = elim (Bool-cases (ltb 1 m.netns_fd_count)) [
  | inl many ↦ rw many refl
  | inr few ↦ rw few (elim (Bool-cases (counts_agree m (length fds))) [
    | inr differ ↦ rw differ refl
    | inl agree ↦ rw agree (elim (Bool-cases (all_wrap new_file fds)) [
      | inr unwrapped ↦ rw unwrapped refl
      | inl wrapped ↦ rw wrapped (split_files-Accounts m fds (ground arith))
    ])
  ])
]

with_fds-Accounts :
    (new_file : ℕ → Bool) (bytes : Bytes) (b : Bool) (fds : List ℕ)
    → Accounts fds (with_fds new_file bytes (b, fds))
with_fds-Accounts new_file bytes false fds = refl
with_fds-Accounts new_file bytes true [] = refl
with_fds-Accounts new_file bytes true (fd ∷ fds) = by_response (strip_ok_response bytes)
  where
    by_response :
        (r : Result ResponseError Bytes) → Accounts (fd ∷ fds) (with_response new_file r (fd ∷ fds))
    by_response (err e) = refl
    by_response (ok rest) = by_payload (parse_payload rest)
      where
        by_payload :
            (r : Result PayloadError PortMetadata)
            → Accounts (fd ∷ fds) (with_payload new_file r (fd ∷ fds))
        by_payload (err e) = refl
        by_payload (ok m) = hand_out-Accounts new_file m (fd ∷ fds)

recv_fds_with_netns-Accounts :
    (new_file : ℕ → Bool) (bytes : Bytes) (ss : List ControlMessage)
    → is_empty bytes ≡ false
    → Accounts
        (carried ss)
        (recv_fds_with_netns new_file (some (record { bytes = bytes; control = some ss })))
unfolding recv_fds_with_netns
recv_fds_with_netns-Accounts new_file bytes ss h = rw h (
    rw (← collect-carried ss [])
      (with_fds-Accounts new_file bytes (collect ss []).0 (collect ss []).1))

-- The same, in any order of closing.
abbrev pub AccountsFor : List ℕ → Received → Type 0
AccountsFor fds (err e, closed) = Perm closed fds
AccountsFor fds (ok h, closed) =
    Perm (h.taps ++ closed) fds × (length h.taps ≡ 1) × (h.netns ≡ none)

without_netns-Accounts :
    (fds : List ℕ) (r : Received) → Accounts fds r → Accounts fds (without_netns r)
without_netns-Accounts fds (err e, closed) h = h
without_netns-Accounts fds (ok out, closed) h =
    append-nil (out.taps ++ (closed ++ list_of out.netns))
    ∙ sym (append_assoc out.taps closed (list_of out.netns))
    ∙ h

only_one-AccountsFor :
    (fds : List ℕ) (r : Received)
    → Accounts fds (without_netns r)
    → AccountsFor fds (only_one (without_netns r))
only_one-AccountsFor fds (err e, closed) h = rw h (Perm.refl fds)
only_one-AccountsFor fds (ok out, closed) h =
    let e = sym (append-nil (out.taps ++ (closed ++ list_of out.netns))) ∙ h in
    elim (Bool-cases (length out.taps == 1)) [
      | inl one ↦ rw one (rw e (Perm.refl fds), (==_iff (length out.taps) 1).0 one, refl)
      | inr other ↦ rw other (rw (← e) (perm_append_comm (closed ++ list_of out.netns) out.taps))
    ]

-- Of a message with a payload, whatever the payload and the ancillary data hold: every descriptor
-- that arrives, up to the first control message that cannot be parsed, is accounted for. On an
-- error all of them are closed; on success one tap descriptor is handed out and all others, that
-- of the namespace included, are closed, none of them twice.
pub recv_fd-AccountsFor :
    (new_file : ℕ → Bool) (bytes : Bytes) (ss : List ControlMessage)
    → is_empty bytes ≡ false
    → AccountsFor
        (carried ss)
        (recv_fd new_file (some (record { bytes = bytes; control = some ss })))
unfolding recv_fd recv_fds
recv_fd-AccountsFor new_file bytes ss h =
    only_one-AccountsFor (carried ss) _
      (without_netns-Accounts (carried ss) _ (recv_fds_with_netns-Accounts new_file bytes ss h))
