-- ===== src/Text/Laws.antt =====
-- Stripping and upper-casing texts whose characters are known.
use mathlib.Core.List.{reverse, reverse-append, reverse-reverse, flat_map}
use eq_site_cms_vk_service.Shared.{
  if◌then◌else◌, Bool, ℕ, ◌≢◌, ◌≡◌, refl, true, false, List, [], ◌∷◌, ◌++◌, All, arith,
}
use eq_site_cms_vk_service.Text.Base.{text_eq, Text, Unicode, lstrip, strip, upper}

pub text_eq_refl : (s : Text) → text_eq s s ≡ true
unfolding text_eq
text_eq_refl [] = refl
text_eq_refl (a ∷ s) = rw (text_eq_refl s) (ground arith)

pub text_eq_sound : (s t : Text) → text_eq s t ≡ true → s ≡ t
unfolding text_eq
text_eq_sound [] [] e = refl
text_eq_sound [] (b ∷ t) e = absurd (cc e)
text_eq_sound (a ∷ s) [] e = absurd (cc e)
text_eq_sound (a ∷ s) (b ∷ t) e =
    let first : a ≡ b = ground arith in
    let later : text_eq s t ≡ true = ground arith in rw (first, text_eq_sound s t later) refl

module _ {ℓ κ} {A : Type ℓ} (P : A → Type κ) where
  pub All-append : (xs ys : List A) → All P xs → All P ys → All P (xs ++ ys)
  All-append [] ys hx hy = hy
  All-append (x ∷ xs) ys hx hy = (hx.0, All-append xs ys hx.1 hy)

  pub All-reverse : (xs : List A) → All P xs → All P (reverse xs)
  All-reverse [] h = tt
  All-reverse (x ∷ xs) h =
      rw (reverse-append (x ∷ []) xs)
        (All-append (reverse xs) (x ∷ []) (All-reverse xs h.1) (h.0, tt))

module _ (u : Unicode) where
  abbrev pub IsSpaces : Text → Type 0
  IsSpaces = All (λ c. u.is_space c ≡ true)

  abbrev pub IsSolid : Text → Type 0
  IsSolid = All (λ c. u.is_space c ≡ false)

  lstrip-append : (xs s : Text) → IsSpaces xs → lstrip u (xs ++ s) ≡ lstrip u s
  unfolding lstrip
  lstrip-append [] s h = refl
  lstrip-append (c ∷ xs) s h = ground (arith, lstrip-append xs s h.1)

  lstrip-IsSolid : (s : Text) → IsSolid s → lstrip u s ≡ s
  unfolding lstrip
  lstrip-IsSolid [] h = refl
  lstrip-IsSolid (c ∷ s) h = ground arith

  lstrip_solid_then : (s rest : Text) → s ≢ [] → IsSolid s → lstrip u (s ++ rest) ≡ s ++ rest
  unfolding lstrip
  lstrip_solid_then [] rest ne h = absurd (ne refl)
  lstrip_solid_then (c ∷ s) rest ne h = ground arith

  -- Whitespace around a text that has none, and is not empty, is stripped.
  pub strip_padded :
      (before s after : Text)
      → s ≢ []
      → IsSpaces before
      → IsSolid s
      → IsSpaces after
      → strip u (before ++ (s ++ after)) ≡ s
  unfolding strip
  strip_padded before s after ne hb hs ha = rw (
    lstrip-append before (s ++ after) hb,
    lstrip_solid_then s after ne hs,
    reverse-append s after,
    lstrip-append (reverse after) (reverse s) (All-reverse _ after ha),
    lstrip-IsSolid (reverse s) (All-reverse _ s hs),
    reverse-reverse s,
  )

  -- `typed` has no whitespace, and each of its characters upper-cases to that of `code`.
  abbrev pub Spells : Text → Text → Type 0
  Spells [] [] = Unit
  Spells (t ∷ typed) (c ∷ code) = (u.is_space t ≡ false) × (u.upper t ≡ c ∷ []) × Spells typed code
  Spells _ _ = ⊥

  pub Spells-IsSolid : (typed code : Text) → Spells typed code → IsSolid typed
  Spells-IsSolid [] code h = tt
  Spells-IsSolid (t ∷ typed) [] h = absurd h
  Spells-IsSolid (t ∷ typed) (c ∷ code) h = (h.0, Spells-IsSolid typed code h.2)

  pub upper-Spells : (typed code : Text) → Spells typed code → upper u typed ≡ code
  unfolding upper flat_map
  upper-Spells [] [] h = refl
  upper-Spells [] (c ∷ code) h = absurd h
  upper-Spells (t ∷ typed) [] h = absurd h
  upper-Spells (t ∷ typed) (c ∷ code) h = ground (arith, upper-Spells typed code h.2)

  -- Stripping stops at a character that is not whitespace.
  lstrip-ends :
      (s : Text) (c : ℕ)
      → u.is_space c ≡ false
      → (kept : Text) × (lstrip u (s ++ c ∷ []) ≡ kept ++ c ∷ [])
  unfolding lstrip
  lstrip-ends [] c h = ([], rw (h) refl)
  lstrip-ends (d ∷ s) c h = go (u.is_space d) (lstrip-ends s c h)
    where
      go :
          (b : Bool)
          → ((kept : Text) × (lstrip u (s ++ c ∷ []) ≡ kept ++ c ∷ []))
          → (kept : Text) × ((if b then lstrip u (s ++ c ∷ []) else d ∷ (s ++ c ∷ []))
              ≡ kept ++ c ∷ [])
      go true kept = kept
      go false _ = (d ∷ s, refl)

  lstrip-head : (c : ℕ) (rest : Text) → u.is_space c ≡ false → lstrip u (c ∷ rest) ≡ c ∷ rest
  unfolding lstrip
  lstrip-head c rest h = rw (h) refl

  pub strip_nonempty :
      (before rest : Text) (c : ℕ)
      → IsSpaces before
      → u.is_space c ≡ false
      → strip u (before ++ c ∷ rest) ≢ []
  unfolding strip
  strip_nonempty before rest c hb hc =
      let (kept, e) = lstrip-ends (reverse rest) c hc in
      let whole : strip u (before ++ c ∷ rest) ≡ c ∷ reverse kept =
        rw
          (
            lstrip-append before (c ∷ rest) hb,
            lstrip-head c rest hc,
            reverse-append (c ∷ []) rest,
            e,
            reverse-append kept (c ∷ []),
          )
          refl in
      λ empty. absurd (cc (whole, empty))
