-- ===== src/Tapfd/Request/Tokens.antt =====
-- The extra tokens of a request (BuildRequest and ParseRequestLine of pkg/tapfd/request.go).
use connector.Base.{
  ◌<◌, ◌≡◌, refl, ap, ◌∙◌, false, List, [], ◌∷◌, ◌++◌, ok, Bytes, bytes_eq_sound, map, ◌≢◌, some,
  arith, All,
}
use connector.Text.{codes, fields, has_byte, is_empty}
use connector.Text.Words.{IsSolid, fields-word, IsSolid-append, cut-key}
use connector.Tapfd.Request.{Field, Request, take_cut, store_field, one_of, take_tokens}

-- A token of the extra text, as the client writes it.
abbrev pub assignment : Field → Bytes
assignment f = f.key ++ b'=' ∷ f.value

-- The extra text with these tokens.
abbrev pub assignments : List Field → Bytes
assignments [] = []
assignments (f ∷ fs) = assignment f ++ b' ' ∷ assignments fs

-- Printable ASCII, and no blank.
abbrev pub IsPrintable : Bytes → Type 0
IsPrintable s = All (λ c. (32 < c) × (c < 127)) s

-- A key that names no wish and holds no `=`, with its value.
abbrev pub IsAssignment : Field → Type 0
IsAssignment f =
    IsPrintable f.key
    × IsPrintable f.value
    × (is_empty f.key ≡ false)
    × (has_byte b'=' f.key ≡ false)
    × (f.key ≢ codes "want_netns")
    × (f.key ≢ codes "TAPFD_WANT_NETNS")

-- The fields behind those that are there, the latest first.
abbrev pub latest_first : List Field → List Field → List Field
latest_first [] seen = seen
latest_first (f ∷ fs) seen = latest_first fs (f ∷ seen)

IsPrintable-IsSolid : (s : Bytes) → IsPrintable s → IsSolid s
IsPrintable-IsSolid [] h = tt
IsPrintable-IsSolid (c ∷ cs) (h, hs) = (ground arith, IsPrintable-IsSolid cs hs)

pub fields-assignments :
    (fs : List Field) → All IsAssignment fs → fields (assignments fs) ≡ map assignment fs
fields-assignments [] h = unfold fields in refl
fields-assignments (f ∷ fs) (h, hs) =
    fields-word (assignment f) (assignments fs) b' '
      (IsSolid-append f.key (b'=' ∷ f.value) (IsPrintable-IsSolid f.key h.0)
        (refl, IsPrintable-IsSolid f.value h.1))
      (some_bytes f.key (b'=' ∷ f.value) h.2) refl
    ∙ ap (λ ws. assignment f ∷ ws) (fields-assignments fs hs)
  where
    some_bytes : (k r : Bytes) → is_empty k ≡ false → is_empty (k ++ r) ≡ false
    some_bytes [] r h = cc
    some_bytes (c ∷ cs) r h = refl

other_key :
    (f : Field)
    → IsAssignment f
    → one_of f.key (codes "want_netns" ∷ codes "TAPFD_WANT_NETNS" ∷ []) ≡ false
other_key f (_, _, _, _, w, t) = ground (
  arith,
  bytes_eq_sound f.key (codes "want_netns"),
  bytes_eq_sound f.key (codes "TAPFD_WANT_NETNS"),
)

take_cut-store :
    (key value : Bytes) (req : Request)
    → is_empty key ≡ false
    → take_cut (some (key, value)) req ≡ ok (store_field key value req)
take_cut-store [] value req h = cc
take_cut-store (c ∷ cs) value req h = refl

pub take_tokens-assignments :
    (fs : List Field) (req : Request)
    → All IsAssignment fs
    → take_tokens (map assignment fs) req
      ≡ ok (record req { entries = latest_first fs req.entries })
unfolding take_tokens
take_tokens-assignments [] req h = refl
take_tokens-assignments (f ∷ fs) req (h, hs) =
    rw (cut-key b'=' f.key f.value h.3, take_cut-store f.key f.value req h.2, other_key f h)
      (take_tokens-assignments fs (record req { entries = f ∷ req.entries }) hs)
