-- ===== src/Text/Words.antt =====
-- Words, and how `Fields`, `TrimSpace` and `Cut` take texts of words apart.
use connector.Base.{
  ℕ, ◌≡◌, refl, ap, ◌∙◌, Bool, true, false, ◌||◌, List, [], ◌∷◌, ◌++◌, Bytes, arith, Bool-cases,
  inl, inr, some, ==_refl, All, length, ◌≤◌, if◌then◌else◌,
}
use connector.Text.{
  is_space, is_empty, pieces, push_front, full, fields, trim_left, trim_right, trim_space, has_byte,
  cut,
}

-- No white byte.
abbrev pub IsSolid : Bytes → Type 0
IsSolid w = All (λ c. is_space c ≡ false) w

pub pieces-solid : (w : Bytes) → IsSolid w → pieces w ≡ w ∷ []
pieces-solid [] h = refl
pieces-solid (c ∷ cs) (h, hs) = rw (h, pieces-solid cs hs) refl

pub pieces-word :
    (w s : Bytes) (c : ℕ) → IsSolid w → is_space c ≡ true → pieces (w ++ c ∷ s) ≡ w ∷ pieces s
pieces-word [] s c h e = rw e refl
pieces-word (x ∷ xs) s c (h, hs) e = rw (h, pieces-word xs s c hs e) refl

-- A word in front of a white byte is the first field.
pub fields-word :
    (w s : Bytes) (c : ℕ)
    → IsSolid w
    → is_empty w ≡ false
    → is_space c ≡ true
    → fields (w ++ c ∷ s) ≡ w ∷ fields s
unfolding fields
fields-word w s c h f e = rw (pieces-word w s c h e, f) refl

pub fields-solid : (w : Bytes) → IsSolid w → is_empty w ≡ false → fields w ≡ w ∷ []
unfolding fields
fields-solid w h f = rw (pieces-solid w h, f) refl

-- Trimming does not change the fields.
fields-trim_left : (s : Bytes) → full (pieces (trim_left s)) ≡ full (pieces s)
fields-trim_left [] = refl
fields-trim_left (c ∷ cs) = elim (Bool-cases (is_space c)) [
  | inl e ↦ rw e (fields-trim_left cs)
  | inr e ↦ rw e (rw e refl)
]

-- Two splittings with one first piece and the same words behind it.
abbrev Agree : List Bytes → List Bytes → Type 0
Agree (v ∷ vs) (w ∷ ws) = (v ≡ w) × (full vs ≡ full ws)
Agree _ _ = ⊥

Agree-full : (vs ws : List Bytes) → Agree vs ws → full vs ≡ full ws
Agree-full [] ws h = absurd h
Agree-full (v ∷ vs) [] h = absurd h
Agree-full (v ∷ vs) (w ∷ ws) (e, h) = rw (e, h) refl

Agree-push_front :
    (c : ℕ) (vs ws : List Bytes) → Agree vs ws → Agree (push_front c vs) (push_front c ws)
Agree-push_front c [] ws h = absurd h
Agree-push_front c (v ∷ vs) [] h = absurd h
Agree-push_front c (v ∷ vs) (w ∷ ws) (e, h) = (ap (λ x. c ∷ x) e, h)

is_empty-nil {ℓ} : {A : Type ℓ} (s : List A) → is_empty s ≡ true → s ≡ []
is_empty-nil [] h = refl
is_empty-nil (c ∷ cs) h = cc

module _ (p : ℕ → Bool) (white : (c : ℕ) → p c ≡ true → is_space c ≡ true) where
  pieces-trim_right : (s : Bytes) → Agree (pieces (trim_right p s)) (pieces s)
  pieces-trim_right [] = (refl, refl)
  pieces-trim_right (c ∷ cs) =
      by_case c cs (p c) refl (is_empty (trim_right p cs)) refl (pieces-trim_right cs)
    where
      by_case :
          (c : ℕ) (cs : Bytes) (cuts : Bool)
          → p c ≡ cuts
          → (blank : Bool) → is_empty (trim_right p cs) ≡ blank
          → Agree (pieces (trim_right p cs)) (pieces cs)
          → Agree (pieces (trim_right p (c ∷ cs))) (pieces (c ∷ cs))
      by_case c cs true e true f h =
          rw (e, f, white c e) (refl, rw (is_empty-nil (trim_right p cs) f) at (Agree-full _ _ h))
      by_case c cs true e false f h = rw (e, f) (rw (white c e) (refl, Agree-full _ _ h))
      by_case c cs false e blank f h = rw e (kept c (trim_right p cs) cs h)
        where
          kept :
              (c : ℕ) (s t : Bytes)
              → Agree (pieces s) (pieces t)
              → Agree (pieces (c ∷ s)) (pieces (c ∷ t))
          kept c s t h = elim (Bool-cases (is_space c)) [
            | inl b ↦ rw b (refl, Agree-full _ _ h)
            | inr b ↦ rw b (Agree-push_front c (pieces s) (pieces t) h)
          ]

  pub fields-trim_right : (s : Bytes) → fields (trim_right p s) ≡ fields s
  unfolding fields
  fields-trim_right s = Agree-full _ _ (pieces-trim_right s)

  pub length-trim_right : (s : Bytes) → length (trim_right p s) ≤ length s
  length-trim_right [] = omega arith
  length-trim_right (c ∷ cs) = ground (arith, length-trim_right cs)

pub length-trim_space : (s : Bytes) → length (trim_space s) ≤ length s
unfolding trim_space
length-trim_space s =
    omega (arith, length-trim_right is_space (λ c h. h) (trim_left s), length-trim_left s)
  where
    length-trim_left : (s : Bytes) → length (trim_left s) ≤ length s
    length-trim_left [] = omega arith
    length-trim_left (c ∷ cs) = ground (arith, length-trim_left cs)

pub fields-trim_space : (s : Bytes) → fields (trim_space s) ≡ fields s
unfolding fields trim_space
fields-trim_space s = fields-trim_right is_space (λ c h. h) (trim_left s) ∙ fields-trim_left s

-- Cutting a text at a byte that the key does not have.
pub cut-key : (b : ℕ) (k v : Bytes) → has_byte b k ≡ false → cut b (k ++ b ∷ v) ≡ some (k, v)
unfolding cut
cut-key b [] v h = rw (==_refl b) refl
cut-key b (c ∷ cs) v h = ground (arith, cut-key b cs v)

pub IsSolid-append : (v w : Bytes) → IsSolid v → IsSolid w → IsSolid (v ++ w)
IsSolid-append [] w h k = k
IsSolid-append (c ∷ cs) w (h, hs) k = (h, IsSolid-append cs w hs k)

pub has_byte-append : (b : ℕ) (v w : Bytes) → has_byte b (v ++ w) ≡ (has_byte b v || has_byte b w)
has_byte-append b [] w = refl
has_byte-append b (c ∷ cs) w = ground (arith, has_byte-append b cs w)

pub has_byte_none :
    (b : ℕ) (v w : Bytes)
    → has_byte b v ≡ false
    → has_byte b w ≡ false
    → has_byte b (v ++ w) ≡ false
has_byte_none b v w h k = has_byte-append b v w ∙ rw (h, k) refl

pieces_full : (s : Bytes) → is_empty (pieces s) ≡ false
pieces_full [] = refl
pieces_full (c ∷ cs) = by_space (is_space c) (pieces cs)
  where
    by_space :
        (b : Bool) (ws : List Bytes) → is_empty (if b then [] ∷ ws else push_front c ws) ≡ false
    by_space true ws = refl
    by_space false [] = refl
    by_space false (w ∷ ws) = refl

push_front-append :
    (c : ℕ) (ws vs : List Bytes)
    → is_empty ws ≡ false
    → push_front c (ws ++ vs) ≡ push_front c ws ++ vs
push_front-append c [] vs h = cc
push_front-append c (w ∷ ws) vs h = refl

pieces-append :
    (s t : Bytes) (c : ℕ) → is_space c ≡ true → pieces (s ++ c ∷ t) ≡ pieces s ++ pieces t
pieces-append [] t c e = rw e refl
pieces-append (x ∷ xs) t c e = elim (Bool-cases (is_space x)) [
  | inl b ↦ rw b (ap (λ r. [] ∷ r) (pieces-append xs t c e))
  | inr b ↦ rw b (
      ap (push_front x) (pieces-append xs t c e)
      ∙ push_front-append x (pieces xs) (pieces t) (pieces_full xs))
]

full-append : (vs ws : List Bytes) → full (vs ++ ws) ≡ full vs ++ full ws
full-append [] ws = refl
full-append (v ∷ vs) ws = elim (Bool-cases (is_empty v)) [
  | inl e ↦ rw e (full-append vs ws)
  | inr e ↦ rw e (ap (λ r. v ∷ r) (full-append vs ws))
]

-- The fields of two texts with white space between them.
pub fields-append :
    (s t : Bytes) (c : ℕ) → is_space c ≡ true → fields (s ++ c ∷ t) ≡ fields s ++ fields t
unfolding fields
fields-append s t c e = ap full (pieces-append s t c e) ∙ full-append (pieces s) (pieces t)
