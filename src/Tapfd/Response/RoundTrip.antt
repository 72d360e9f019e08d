-- ===== src/Tapfd/Response/RoundTrip.antt =====
-- What a provider answers on a failure is read back by the receiver.
use connector.Base.{
  ℕ, ◌+◌, ◌<◌, ◌≡◌, refl, ap, ◌∙◌, Bool, false, ◌&&◌, some, [], ◌∷◌, ◌++◌, Result, ok, Bytes, arith,
  ◌==◌, All, ensure-ok, refuse-ok, ltb, length, Bool-cases, inl, inr,
}
use connector.Text.{
  codes, fields, trim_space, trim_left, trim_right, is_space, is_empty, cut, has_byte,
}
use connector.Text.Words.{IsSolid, fields-word, fields-trim_space}
use connector.Tapfd.Request.{request_version}
use connector.Tapfd.Response.{
  ResponseError, ok_prefix, build_ok_response, strip_ok_response, sanitized, sanitize_token,
  default_to, provider_internal, err_line, build_error_response, take_error_tokens,
  parse_error_tokens, parse_error_response, with_code, empty_payload, not_terminated, too_long,
  max_payload_size,
}

-- ASCII, and neither a vertical tab nor a form feed. Behind ASCII, Go's `strings.Fields` splits a text at
-- white space that `sanitizeToken` lets pass.
abbrev pub IsTame : ℕ → Type 0
IsTame c = (c < 128) × ((c == 11) ≡ false) × ((c == 12) ≡ false)

All-trim_left : (P : ℕ → Type 0) (s : Bytes) → All P s → All P (trim_left s)
All-trim_left P [] h = h
All-trim_left P (c ∷ cs) (h, hs) = elim (Bool-cases (is_space c)) [
  | inl e ↦ rw e (All-trim_left P cs hs)
  | inr e ↦ rw e (h, hs)
]

All-trim_right : (P : ℕ → Type 0) (p : ℕ → Bool) (s : Bytes) → All P s → All P (trim_right p s)
All-trim_right P p [] h = h
All-trim_right P p (c ∷ cs) (h, hs) = elim (Bool-cases (p c && is_empty (trim_right p cs))) [
  | inl e ↦ rw e tt
  | inr e ↦ rw e (h, All-trim_right P p cs hs)
]

sanitized-IsSolid : (s : Bytes) → All IsTame s → IsSolid (sanitized s)
sanitized-IsSolid [] h = tt
sanitized-IsSolid (c ∷ cs) (h, hs) = (ground arith, sanitized-IsSolid cs hs)

sanitize_token-IsSolid : (s : Bytes) → All IsTame s → IsSolid (sanitize_token s)
unfolding sanitize_token trim_space
sanitize_token-IsSolid s h =
    sanitized-IsSolid (trim_right is_space (trim_left s))
      (All-trim_right IsTame is_space (trim_left s) (All-trim_left IsTame s h))

default_to-IsSolid : (d s : Bytes) → IsSolid d → IsSolid s → IsSolid (default_to d s)
default_to-IsSolid d [] h k = h
default_to-IsSolid d (c ∷ cs) h k = k

default_to_twice : (d s : Bytes) → default_to d (default_to d s) ≡ default_to d s
default_to_twice [] [] = refl
default_to_twice (x ∷ xs) [] = refl
default_to_twice d (c ∷ cs) = refl

fields-err_line :
    (code message : Bytes)
    → IsSolid code
    → IsSolid message
    → fields (err_line code message)
      ≡ request_version ∷ codes "ERR" ∷ (codes "code=" ++ code) ∷ (codes "message=" ++ message) ∷ []
fields-err_line code message hc hm =
    fields-word request_version _ b' ' (ground arith) refl refl
    ∙ ap (λ r. request_version ∷ r)
        (fields-word (codes "ERR") _ b' ' (ground arith) refl refl
          ∙ ap (λ r. codes "ERR" ∷ r)
              (fields-word (codes "code=" ++ code) _ b' ' (ground (arith, hc)) refl refl
                ∙ ap (λ r. (codes "code=" ++ code) ∷ r)
                    (fields-word (codes "message=" ++ message) [] b'\n' (ground (arith, hm)) refl
                        refl
                      ∙ ap (λ r. (codes "message=" ++ message) ∷ r) no_fields)))
  where
    no_fields : fields [] ≡ []
    no_fields = unfold fields in refl

take_error_tokens-two :
    (code message : Bytes)
    → take_error_tokens
        ((codes "code=" ++ code) ∷ (codes "message=" ++ message) ∷ [])
        (record { code = []; message = [] })
      ≡ ok (with_code (record { code = code; message = message }))
unfolding take_error_tokens cut
take_error_tokens-two code message = refl

parse_error_response-err_line :
    (code message : Bytes)
    → IsSolid code
    → IsSolid message
    → parse_error_response (err_line code message)
      ≡ some (ok (with_code (record { code = code; message = message })))
parse_error_response-err_line code message hc hm =
    as_error code message
    ∙ ap (λ ts. some (parse_error_tokens ts))
        (fields-trim_space (err_line code message) ∙ fields-err_line code message hc hm)
    ∙ ap some (take_error_tokens-two code message)
  where
    as_error :
        (code message : Bytes)
        → parse_error_response (err_line code message)
          ≡ some (parse_error_tokens (fields (trim_space (err_line code message))))
    as_error code message = unfold parse_error_response trim_space in refl

-- For a code and a message in ASCII with no vertical tab and no form feed, the receiver takes the
-- provider's error line for one and reads from it the two texts as they were sanitised, or the defaults where
-- nothing was left of them.
pub build_error_response-parse :
    (code message : Bytes)
    → All IsTame code
    → All IsTame message
    → parse_error_response (build_error_response code message)
      ≡ some (
          ok (record {
            code = default_to provider_internal (sanitize_token code);
            message = default_to (codes "error") (sanitize_token message);
          }))
unfolding build_error_response
build_error_response-parse code message hc hm =
    parse_error_response-err_line _ _
      (default_to-IsSolid provider_internal _ (ground arith) (sanitize_token-IsSolid code hc))
      (default_to-IsSolid (codes "error") _ (ground arith) (sanitize_token-IsSolid message hm))
    ∙ ap
        (λ c.
          some (
            ok
              (record { code = c; message = default_to (codes "error") (sanitize_token message) })))
        (default_to_twice provider_internal (sanitize_token code))

pub build_ok_response-strip :
    (payload sent : Bytes)
    → build_ok_response payload ≡ ok sent
    → strip_ok_response sent ≡ ok payload
unfolding build_ok_response
build_ok_response-strip payload sent h =
    let (some_bytes, h1) = refuse-ok (is_empty payload) empty_payload _ h in
    let (_, h2) = ensure-ok (has_byte 0 payload) not_terminated _ h1 in
    let (_, h3) =
      refuse-ok (ltb max_payload_size (length ok_prefix + length payload)) too_long _ h2 in
    stripped payload sent some_bytes h3
  where
    stripped :
        (payload sent : Bytes)
        → is_empty payload ≡ false
        → ◌≡◌ {A = Result ResponseError Bytes} (ok (ok_prefix ++ payload)) (ok sent)
        → strip_ok_response sent ≡ ok payload
    stripped [] sent f h = cc
    stripped (c ∷ cs) sent f h =
        let same : sent ≡ ok_prefix ++ c ∷ cs = cc in
        ap strip_ok_response same ∙ unfold strip_ok_response in refl
