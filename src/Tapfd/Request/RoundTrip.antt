-- ===== src/Tapfd/Request/RoundTrip.antt =====
-- A request line that a client builds is read and parsed by the provider as it was meant.
use mathlib.Core.List.{append-nil, append_assoc}
use connector.Base.{
  ℕ, ◌+◌, ◌<◌, ◌≡◌, refl, sym, ap, ◌∙◌, Bool, true, false, ◌||◌, List, [], ◌∷◌, ◌++◌, Result, ok,
  ensure-ok, refuse-ok, ltb, ltb-false, lt→ltb, ◌==◌, Bytes, bytes_eq, bytes_eq_sound, length,
  length-append, arith, Bool-cases, inl, inr, All,
}
use connector.Text.{codes, fields, trim_space, trim_right, has_byte, cut, is_empty, is_space}
use connector.Text.Words.{
  IsSolid, fields-append, fields-solid, fields-trim_space, fields-trim_right, length-trim_space,
  length-trim_right, has_byte_none,
}
use connector.Tapfd.Request.{
  Field, RequestError, request_version, request_ops, one_of, valid_request_op, breaks_line,
  with_extra, with_netns, request_line, build_request, is_truthy, take_tokens, parse_tokens,
  parse_trimmed, parse_request_line, StreamEnd, read_onto, read_request_line, unsupported_op,
  line_break, too_long,
}
use connector.Tapfd.Request.Tokens.{
  assignments, IsAssignment, latest_first, fields-assignments, take_tokens-assignments,
}

pub one_of-All :
    (P : Bytes → Type 0) (s : Bytes) (ts : List Bytes) → one_of s ts ≡ true → All P ts → P s
one_of-All P s [] h a = cc
one_of-All P s (t ∷ ts) h (p, ps) = elim (Bool-cases (bytes_eq s t)) [
  | inl e ↦ rw (bytes_eq_sound s t e) p
  | inr e ↦ one_of-All P s ts (rw e at h) ps
]

-- What the line's checks need of an operation.
abbrev IsPlain : Bytes → Type 0
IsPlain s = IsSolid s × (is_empty s ≡ false) × (has_byte b'\n' s ≡ false) × (has_byte 0 s ≡ false)

op-IsPlain : (op : Bytes) → valid_request_op op ≡ true → IsPlain op
unfolding valid_request_op
op-IsPlain op h = one_of-All IsPlain op request_ops h (ground arith)

abbrev netns_tokens : Bool → List Bytes
netns_tokens true = codes "want_netns=1" ∷ []
netns_tokens false = []

fields-with_extra : (line e : Bytes) → fields (with_extra line e) ≡ fields line ++ fields e
unfolding fields
fields-with_extra line [] = sym (append-nil (fields line))
fields-with_extra line (c ∷ cs) = fields-append line (c ∷ cs) b' ' refl

fields-with_netns :
    (want : Bool) (line : Bytes) → fields (with_netns want line) ≡ fields line ++ netns_tokens want
fields-with_netns true line =
    fields-append line (codes "want_netns=1") b' ' refl
    ∙ ap (λ w. fields line ++ w) (fields-solid (codes "want_netns=1") (ground arith) refl)
fields-with_netns false line = sym (append-nil (fields line))

fields-request_line :
    (op e : Bytes) (want : Bool)
    → IsPlain op
    → fields (request_line op e want) ≡ request_version ∷ op ∷ netns_tokens want ++ fields e
fields-request_line op e want (solid, some_op, _, _) =
    fields-with_extra (with_netns want (request_version ++ b' ' ∷ op)) e
    ∙ ap (λ w. w ++ fields e)
        (fields-with_netns want (request_version ++ b' ' ∷ op)
          ∙ ap (λ w. w ++ netns_tokens want)
              (fields-append request_version op b' ' refl
                ∙ ap (λ w. fields request_version ++ w) (fields-solid op solid some_op)
                ∙ ap (λ w. w ++ op ∷ []) (fields-solid request_version (ground arith) refl)))

module _ (b : ℕ) (not_blank : (b == b' ') ≡ false) where
  has_byte-with_extra :
      (line e : Bytes)
      → has_byte b line ≡ false
      → has_byte b e ≡ false
      → has_byte b (with_extra line e) ≡ false
  has_byte-with_extra line [] h k = h
  has_byte-with_extra line (c ∷ cs) h k =
      has_byte_none b line (b' ' ∷ c ∷ cs) h (ground (arith, k, not_blank))

  has_byte-with_netns :
      (want : Bool) (line : Bytes)
      → has_byte b (codes " want_netns=1") ≡ false
      → has_byte b line ≡ false
      → has_byte b (with_netns want line) ≡ false
  has_byte-with_netns true line h k = has_byte_none b line (codes " want_netns=1") k h
  has_byte-with_netns false line h k = k

-- The line of a plain operation holds a byte only where its extra tokens do.
has_byte-request_line :
    (b : ℕ) (op e : Bytes) (want : Bool)
    → (b == b' ') ≡ false
    → has_byte b (codes " want_netns=1") ≡ false
    → has_byte b (request_version ++ b' ' ∷ op) ≡ false
    → has_byte b e ≡ false
    → has_byte b (request_line op e want) ≡ false
has_byte-request_line b op e want nb hn ho he =
    has_byte-with_extra b nb (with_netns want (request_version ++ b' ' ∷ op)) e
      (has_byte-with_netns b nb want (request_version ++ b' ' ∷ op) hn ho) he

-- The reader's loop passes over a line that has no line break and no NUL.
read_onto-line :
    (end : StreamEnd) (buf line rest : Bytes)
    → has_byte b'\n' line ≡ false
    → has_byte 0 line ≡ false
    → length buf + length line < 512
    → read_onto end buf (line ++ b'\n' ∷ rest) ≡ ok (buf ++ line)
unfolding read_onto
read_onto-line end buf [] rest hl hz h =
    rw (lt→ltb (length buf) 512 (omega arith)) (ap ok (sym (append-nil buf)))
read_onto-line end buf (c ∷ cs) rest hl hz h = ground (
  arith,
  read_onto-line end (buf ++ c ∷ []) cs rest,
  append_assoc buf (c ∷ []) cs,
  length-append buf (c ∷ []),
)

-- What the parser makes of a text depends on its fields and on its length.
parse_trimmed-fields :
    (line version op : Bytes) (rest : List Bytes)
    → fields line ≡ version ∷ op ∷ rest
    → length line < 512
    → parse_trimmed line ≡ parse_tokens (version ∷ op ∷ rest)
parse_trimmed-fields [] version op rest h short = absurd (none_left (unfold fields in h))
  where
    none_left : ◌≡◌ {A = List Bytes} [] (version ∷ op ∷ rest) → ⊥
    none_left e = cc
parse_trimmed-fields (c ∷ cs) version op rest h short =
    rw (ltb-false 512 (length (c ∷ cs) + 1) (omega arith)) (ap parse_tokens h)

parse_request_line-fields :
    (line version op : Bytes) (rest : List Bytes)
    → fields line ≡ version ∷ op ∷ rest
    → length line < 512
    → parse_request_line line ≡ parse_tokens (version ∷ op ∷ rest)
unfolding parse_request_line
parse_request_line-fields line version op rest h short =
    parse_trimmed-fields (trim_right (λ c. c == b'\r') (trim_space line)) version op rest
      (fields-trim_right (λ c. c == b'\r') cr_is_space (trim_space line)
        ∙ fields-trim_space line
        ∙ h)
      (omega (
        arith,
        length-trim_space line,
        length-trim_right (λ c. c == b'\r') cr_is_space (trim_space line),
      ))
  where
    cr_is_space : (c : ℕ) → (c == b'\r') ≡ true → is_space c ≡ true
    cr_is_space c e = ground arith

take_tokens-netns :
    (op : Bytes) (want : Bool) (ts : List Bytes)
    → take_tokens
        (netns_tokens want ++ ts)
        (record { version = request_version; op = op; want_netns = false; entries = [] })
      ≡ take_tokens ts
          (record { version = request_version; op = op; want_netns = want; entries = [] })
unfolding take_tokens cut is_truthy trim_space
take_tokens-netns op true ts = refl
take_tokens-netns op false ts = refl

parse_tokens-netns :
    (op : Bytes) (want : Bool) (ts : List Bytes)
    → valid_request_op op ≡ true
    → parse_tokens (request_version ∷ op ∷ netns_tokens want ++ ts)
      ≡ take_tokens ts
          (record { version = request_version; op = op; want_netns = want; entries = [] })
parse_tokens-netns op want ts valid = rw valid (take_tokens-netns op want ts)

none_of_three : (a b c : Bool) → (a || b || c) ≡ false → (b ≡ false) × (c ≡ false)
none_of_three false false false h = (refl, refl)
none_of_three true b c h = cc
none_of_three false true c h = cc
none_of_three false false true h = cc

request_line-read :
    (op e : Bytes) (want : Bool) (end : StreamEnd) (more sent : Bytes)
    → IsPlain op
    → breaks_line e ≡ false
    → length (request_line op e want) < 512
    → ◌≡◌ {A = Result RequestError Bytes} (ok (request_line op e want ++ b'\n' ∷ [])) (ok sent)
    → read_onto end [] (sent ++ more) ≡ ok (request_line op e want)
request_line-read op e want end more sent (_, _, ol, oz) plain short same =
    let (el, ez) = none_of_three (has_byte b'\r' e) (has_byte b'\n' e) (has_byte 0 e) plain in
    let line = request_line op e want in
    ap (λ s. read_onto end [] (s ++ more)) (sent_line same)
    ∙ ap (read_onto end []) (append_assoc line (b'\n' ∷ []) more)
    ∙ read_onto-line end [] line more (has_byte-request_line b'\n' op e want refl refl ol el)
        (has_byte-request_line 0 op e want refl refl oz ez) (omega arith)
  where
    sent_line : {x y : Bytes} → ◌≡◌ {A = Result RequestError Bytes} (ok x) (ok y) → y ≡ x
    sent_line e = cc

-- A line that the client builds, whatever follows it in the stream, is read by the provider's loop
-- as one line, and parsing that line gives the operation and the wish for a namespace that were
-- asked for, with exactly the tokens of the extra text taken on top.
build_request_lem :
    (op extra : Bytes) (want : Bool) (end : StreamEnd) (more sent : Bytes)
    → build_request op extra want ≡ ok sent
    → (line : Bytes) × (read_request_line end (sent ++ more) ≡ ok line)
      × (parse_request_line line
          ≡ take_tokens
              (fields extra)
              (record { version = request_version; op = op; want_netns = want; entries = [] }))
unfolding build_request read_request_line
build_request_lem op extra want end more sent h =
    let e = trim_space extra in
    let line = request_line op e want in
    let (valid, h1) = ensure-ok (valid_request_op op) unsupported_op _ h in
    let (plain, h2) = refuse-ok (breaks_line e) line_break _ h1 in
    let (fits, h3) = refuse-ok (ltb 512 (length line + 1)) too_long _ h2 in
    (
      line,
      request_line-read op e want end more sent (op-IsPlain op valid) plain (ground arith) h3,
      parse_request_line-fields line request_version op _
            (fields-request_line op e want (op-IsPlain op valid)) (ground arith)
          ∙ parse_tokens-netns op want (fields e) valid
          ∙ ap
              (λ ts.
                take_tokens ts
                  (record { version = request_version; op = op; want_netns = want; entries = [] }))
              (fields-trim_space extra),
    )

-- A request with extra tokens `key=value`, printable ASCII of other keys than the wish for a namespace, is
-- built as a line that the provider's loop reads as one, whatever follows it in the stream; and parsing the
-- line gives the operation, the wish and every token's key and value as they were asked for, the latest
-- first.
pub build_request-parse :
    (op : Bytes) (fs : List Field) (want : Bool) (end : StreamEnd) (more sent : Bytes)
    → All IsAssignment fs
    → build_request op (assignments fs) want ≡ ok sent
    → (line : Bytes) × (read_request_line end (sent ++ more) ≡ ok line)
      × (parse_request_line line
          ≡ ok (record {
            version = request_version;
            op = op;
            want_netns = want;
            entries = latest_first fs [];
          }))
build_request-parse op fs want end more sent known h =
    let (line, read, parsed) = build_request_lem op (assignments fs) want end more sent h in
    (
      line,
      read,
      parsed
          ∙ ap
              (λ ts.
                take_tokens ts
                  (record { version = request_version; op = op; want_netns = want; entries = [] }))
              (fields-assignments fs known)
          ∙ take_tokens-assignments fs _ known,
    )
