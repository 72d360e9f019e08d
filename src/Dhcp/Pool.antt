-- ===== src/Dhcp/Pool.antt =====
-- The leases of the DHCP pool (pkg/dhcp/server.go) over any sequence of messages.
use mathlib.Core.Path.{subst}
use connector.Base.{
  ℕ, ◌+◌, ◌≤◌, ◌<◌, ◌≡◌, refl, ◌≢◌, ◌⊎◌, inl, inr, Bool, true, false, Option, none, some, List, [],
  ◌∷◌, Result, ok, err, arith, Bool-cases, Bytes, bytes_eq, bytes_eq_sound, bytes_eq_refl, ltb, sym,
  ◌∙◌,
}
use connector.Ip.{ip_to_uint32}
use connector.Dhcp.{
  MessageType, offer, ack, nak, refuses, requested, IpPool, PoolError, new_ip_pool, lookup, leased,
  allocate_known, allocate, Message, discover, request, other_type, handler, Reply, offered,
  answered, by_type,
}

-- Every lease is an address of the pool that was handed out, and no two clients share one.
pub record IsPool (p : IpPool) : Type 0 where
  pub some_left : p.next ≤ p.end + 1
  pub range :
      (mac : Bytes) (ip : ℕ) → lookup mac p.leases ≡ some ip → (p.start ≤ ip) × (ip < p.next)
  pub distinct :
      (a b : Bytes) (ip : ℕ) → lookup a p.leases ≡ some ip → lookup b p.leases ≡ some ip → a ≡ b
  pub ordered : p.start ≤ p.next
  pub in_word : p.end < 4294967295

leased-lookup :
    (p : IpPool) (mac a : Bytes) (ip : ℕ)
    → lookup a (leased p mac).leases ≡ some ip
    → ((a ≡ mac) × (ip ≡ p.next)) ⊎ (lookup a p.leases ≡ some ip)
leased-lookup p mac a ip h = elim (Bool-cases (bytes_eq a mac)) [
  | inl e ↦ inl (bytes_eq_sound a mac e, some-inj (sym (rw e at h)))
  | inr e ↦ inr (rw e at h)
]
  where
    some-inj : {x y : ℕ} → ◌≡◌ {A = Option ℕ} (some x) (some y) → x ≡ y
    some-inj e = cc

leased-IsPool : (p : IpPool) (mac : Bytes) → p.next ≤ p.end → IsPool p → IsPool (leased p mac)
leased-IsPool p mac fits v = record {
  some_left = omega (arith, v.in_word);
  ordered = omega (arith, v.in_word, v.ordered);
  in_word = v.in_word;
  range = λ a ip h. elim (leased-lookup p mac a ip h) [
    | inl (_, e) ↦ (omega (arith, v.ordered), omega (arith, v.in_word))
    | inr old ↦ let (low, high) = v.range a ip old in (low, omega (arith, v.in_word))
  ];
  distinct =
      λ a b ip ha hb. both a b ip (leased-lookup p mac a ip ha) (leased-lookup p mac b ip hb);
}
  where
    both :
        (a b : Bytes) (ip : ℕ)
        → ((a ≡ mac) × (ip ≡ p.next)) ⊎ (lookup a p.leases ≡ some ip)
        → ((b ≡ mac) × (ip ≡ p.next)) ⊎ (lookup b p.leases ≡ some ip)
        → a ≡ b
    both a b ip (inl (ea, _)) (inl (eb, _)) = ea ∙ sym eb
    both a b ip (inl (_, e)) (inr old) = absurd (omega (arith, (v.range b ip old).1))
    both a b ip (inr old) (inl (_, e)) = absurd (omega (arith, (v.range a ip old).1))
    both a b ip (inr ha) (inr hb) = v.distinct a b ip ha hb

-- An existing lease stays as it is.
abbrev Keeps : IpPool → IpPool → Type 0
Keeps p q = (a : Bytes) (ip : ℕ) → lookup a p.leases ≡ some ip → lookup a q.leases ≡ some ip

-- What an allocation does: the pool stays well formed, leases stay, and an answer is the client's
-- lease.
abbrev Allocated : IpPool → Bytes → Result PoolError ℕ × IpPool → Type 0
Allocated p mac (ok ip, q) = IsPool q × Keeps p q × (lookup mac q.leases ≡ some ip)
Allocated p mac (err _, q) = q ≡ p

leased-Keeps : (p : IpPool) (mac : Bytes) → lookup mac p.leases ≡ none → Keeps p (leased p mac)
leased-Keeps p mac fresh a ip h = elim (Bool-cases (bytes_eq a mac)) [
  | inl e ↦ absurd (clash (sym h ∙ rw (bytes_eq_sound a mac e) fresh))
  | inr e ↦ rw e h
]
  where
    clash : {x : ℕ} → ◌≡◌ {A = Option ℕ} (some x) none → ⊥
    clash e = cc

allocate_known-Allocated :
    (p : IpPool) (mac : Bytes) (o : Option ℕ)
    → lookup mac p.leases ≡ o
    → IsPool p
    → Allocated p mac (allocate_known p mac o)
allocate_known-Allocated p mac (some ip) e v = (v, (λ a x h. h), e)
allocate_known-Allocated p mac none e v = elim (Bool-cases (ltb p.end p.next)) [
  | inl full ↦ rw full refl
  | inr left ↦
      rw left
        (leased-IsPool p mac (ground arith) v, leased-Keeps p mac e, rw (bytes_eq_refl mac) refl)
]

allocate-Allocated : (p : IpPool) (mac : Bytes) → IsPool p → Allocated p mac (allocate p mac)
unfolding allocate
allocate-Allocated p mac v = allocate_known-Allocated p mac (lookup mac p.leases) refl v

-- A reply that names an address names the client's lease.
abbrev pub Names : Option Reply → Bytes → IpPool → Type 0
Names (some (offer ip)) mac q = lookup mac q.leases ≡ some ip
Names (some (ack ip)) mac q = lookup mac q.leases ≡ some ip
Names (some nak) mac q = Unit {0}
Names none mac q = Unit {0}

-- What a message does.
pub record IsServed (m : Message) (p : IpPool) (r : Option Reply × IpPool) : Type 0 where
  pub pool : IsPool r.1
  pub keeps : (a : Bytes) (ip : ℕ) → lookup a p.leases ≡ some ip → lookup a r.1.leases ≡ some ip
  pub names : Names r.0 m.client_hw_addr r.1

offered-IsServed :
    (reply_fails : Bool) (m : Message) (p : IpPool) (r : Result PoolError ℕ × IpPool)
    → IsPool p
    → Allocated p m.client_hw_addr r
    → IsServed m p (offered reply_fails r)
offered-IsServed reply_fails m p (err x, q) v a =
    rw a (record { pool = v; keeps = λ a x h. h; names = tt })
offered-IsServed true m p (ok ip, q) v (pool, keeps, lease) = record {
  pool = pool;
  keeps = keeps;
  names = tt;
}
offered-IsServed false m p (ok ip, q) v (pool, keeps, lease) = record {
  pool = pool;
  keeps = keeps;
  names = lease;
}

answered-IsServed :
    (reply_fails : Bool) (m : Message) (p : IpPool) (r : Result PoolError ℕ × IpPool)
    → IsPool p
    → Allocated p m.client_hw_addr r
    → IsServed m p (answered reply_fails m r)
answered-IsServed reply_fails m p (err x, q) v a =
    rw a (record { pool = v; keeps = λ a x h. h; names = tt })
answered-IsServed true m p (ok ip, q) v (pool, keeps, lease) = record {
  pool = pool;
  keeps = keeps;
  names = tt;
}
answered-IsServed false m p (ok ip, q) v (pool, keeps, lease) =
    elim (Bool-cases (refuses (requested m) ip)) [
      | inl e ↦ rw e (record { pool = pool; keeps = keeps; names = tt })
      | inr e ↦ rw e (record { pool = pool; keeps = keeps; names = lease })
    ]

handler-IsServed :
    (reply_fails : Bool) (p : IpPool) (m : Message)
    → IsPool p
    → IsServed m p (handler reply_fails p m)
unfolding handler
handler-IsServed reply_fails p m v = typed m.type
  where
    typed :
        (t : MessageType) → IsServed m p (by_type t reply_fails m (allocate p m.client_hw_addr) p)
    typed discover = offered-IsServed reply_fails m p _ v (allocate-Allocated p m.client_hw_addr v)
    typed request = answered-IsServed reply_fails m p _ v (allocate-Allocated p m.client_hw_addr v)
    typed other_type = record { pool = v; keeps = λ a x h. h; names = tt }

-- A sequence of messages, each with whether its reply can be built.
unfoldable pub serve : List (Bool × Message) → IpPool → IpPool
serve [] p = p
serve ((reply_fails, m) ∷ ms) p = serve ms (handler reply_fails p m).1

new_ip_pool-IsPool :
    (start end : Bytes) (p : IpPool)
    → ip_to_uint32 end < 4294967295
    → new_ip_pool start end ≡ ok p
    → IsPool p
unfolding new_ip_pool
new_ip_pool-IsPool start end p b h =
    let (from, low, to, fresh) = parts in
    record {
      some_left = omega arith;
      ordered = omega arith;
      in_word = omega arith;
      range = λ mac ip l. absurd (nothing mac ip l);
      distinct = λ x y ip l _. absurd (nothing x ip l);
    }
  where
    parts : (p.next ≡ p.start) × (p.start ≤ p.end) × (p.end ≡ ip_to_uint32 end) × (p.leases ≡ [])
    parts = ground arith

    fresh_of : p.leases ≡ []
    fresh_of = let (_, _, _, fresh) = parts in fresh

    nothing : (mac : Bytes) (ip : ℕ) → lookup mac p.leases ≡ some ip → ⊥
    nothing mac ip l = clash (rw fresh_of at l)
      where
        clash : {x : ℕ} → ◌≡◌ {A = Option ℕ} none (some x) → ⊥
        clash e = cc

served-IsPool : (ms : List (Bool × Message)) (p : IpPool) → IsPool p → IsPool (serve ms p)
unfolding serve
served-IsPool [] p v = v
served-IsPool ((reply_fails, m) ∷ ms) p v =
    served-IsPool ms (handler reply_fails p m).1 (handler-IsServed reply_fails p m v).pool

served_keeps :
    (ms : List (Bool × Message)) (p : IpPool) (mac : Bytes) (ip : ℕ)
    → IsPool p
    → lookup mac p.leases ≡ some ip
    → lookup mac (serve ms p).leases ≡ some ip
unfolding serve
served_keeps [] p mac ip v h = h
served_keeps ((reply_fails, m) ∷ ms) p mac ip v h =
    let s = handler-IsServed reply_fails p m v in
    served_keeps ms (handler reply_fails p m).1 mac ip s.pool (s.keeps mac ip h)

SameBounds : IpPool → IpPool → Type 0
SameBounds p q = (q.start ≡ p.start) × (q.end ≡ p.end)

handler-SameBounds :
    (reply_fails : Bool) (p : IpPool) (m : Message) → SameBounds p (handler reply_fails p m).1
unfolding handler allocate SameBounds
handler-SameBounds reply_fails p m = typed m.type
  where
    known :
        (o : Option ℕ)
        → SameBounds p (offered reply_fails (allocate_known p m.client_hw_addr o)).1
          × SameBounds p (answered reply_fails m (allocate_known p m.client_hw_addr o)).1
    known (some ip) = ((refl, refl), (refl, refl))
    known none = elim (Bool-cases (ltb p.end p.next)) [
      | inl e ↦ rw e ((refl, refl), (refl, refl))
      | inr e ↦ rw e ((refl, refl), (refl, refl))
    ]

    typed :
        (t : MessageType) → SameBounds p (by_type t reply_fails m (allocate p m.client_hw_addr) p).1
    typed discover = (known (lookup m.client_hw_addr p.leases)).0
    typed request = (known (lookup m.client_hw_addr p.leases)).1
    typed other_type = (refl, refl)

served-SameBounds : (ms : List (Bool × Message)) (p : IpPool) → SameBounds p (serve ms p)
unfolding serve SameBounds
served-SameBounds [] p = (refl, refl)
served-SameBounds ((reply_fails, m) ∷ ms) p =
    let (s, e) = handler-SameBounds reply_fails p m in
    let (ss, es) = served-SameBounds ms (handler reply_fails p m).1 in (ss ∙ s, es ∙ e)

new_bounds :
    (start end : Bytes) (p : IpPool)
    → new_ip_pool start end ≡ ok p
    → (p.start ≡ ip_to_uint32 start) × (p.end ≡ ip_to_uint32 end)
unfolding new_ip_pool
new_bounds start end p h = ground arith

-- A server whose pool ends below 255.255.255.255: after any messages, the answer to the next one names an
-- address of the pool, which its client keeps whatever messages follow, and which no other client ever
-- has.
pub handler-lease :
    (start end : Bytes) (p : IpPool) (before after : List (Bool × Message)) (reply_fails : Bool)
    (m : Message) (other : Bytes) (ip : ℕ)
    → other ≢ m.client_hw_addr
    → new_ip_pool start end ≡ ok p
    → ip_to_uint32 end < 4294967295
    → (handler reply_fails (serve before p) m).0 ≡ some (ack ip)
    → let q = serve after (handler reply_fails (serve before p) m).1 in
      (lookup m.client_hw_addr q.leases ≡ some ip)
      × (ip_to_uint32 start ≤ ip)
      × (ip ≤ ip_to_uint32 end)
      × (lookup other q.leases ≢ some ip)
unfolding SameBounds
handler-lease start end p before after reply_fails m other ip ne fresh b answer =
    let r = handler reply_fails (serve before p) m in
    let v = served-IsPool before p (new_ip_pool-IsPool start end p b fresh) in
    let s = handler-IsServed reply_fails (serve before p) m v in
    let lease = subst (λ o. Names o m.client_hw_addr r.1) answer s.names in
    let kept = served_keeps after r.1 m.client_hw_addr ip s.pool lease in
    let w = served-IsPool after r.1 s.pool in
    let (low, high) = w.range m.client_hw_addr ip kept in
    let (s1, e1) = served-SameBounds before p in
    let (s2, e2) = handler-SameBounds reply_fails (serve before p) m in
    let (s3, e3) = served-SameBounds after r.1 in
    let (s0, e0) = new_bounds start end p fresh in
    (
      kept,
      omega (arith, low, s0, s1, s2, s3),
      omega (arith, high, w.some_left, e0, e1, e2, e3),
      λ h. ne (w.distinct other m.client_hw_addr ip h kept),
    )
