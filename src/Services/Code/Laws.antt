-- ===== src/Services/Code/Laws.antt =====
-- Made codes, and what typing and masking do to them.
use eq_site_cms_vk_service.Shared.{
  ℕ, zero, suc, ◌≡◌, ◌≢◌, refl, ap, ◌<◌, ◌%◌, true, [], ◌∷◌, ◌++◌, List, All, any, get_or, length,
  take, arith, ◌==◌,
}
use eq_site_cms_vk_service.Text.{Text, Unicode}
use eq_site_cms_vk_service.Text.Laws.{IsSpaces, Spells, Spells-IsSolid, strip_padded, upper-Spells}
use eq_site_cms_vk_service.Exec.{
  Env, World, Ends, Ends-bind, Untouched, Untouched-refl, Untouched-trans,
}
use eq_site_cms_vk_service.Services.Code.Base.{
  code_alphabet, char_of, draw_char, draw_chars, generate_code, normalize_code, mask_code,
}

abbrev pub IsInAlphabet : ℕ → Type 0
IsInAlphabet c = any (λ a. a == c) code_alphabet ≡ true

any-get_or : (xs : List ℕ) (i d : ℕ) → i < length xs → any (λ a. a == get_or xs i d) xs ≡ true
unfolding any
any-get_or [] i d h = elim h [ ]
any-get_or (x ∷ xs) zero d h = ground arith
any-get_or (x ∷ xs) (suc i) d h = ground (arith, any-get_or xs i d)

char_of-IsInAlphabet : (draw : ℕ) → IsInAlphabet (char_of draw)
unfolding char_of
char_of-IsInAlphabet draw = any-get_or code_alphabet (draw % 32) 0 (omega arith)

draw_char_lem :
    (env : Env) (w : World)
    → Ends (λ c w'. IsInAlphabet c × Untouched w w') (λ _ _. ⊥) (draw_char env w)
unfolding draw_char
draw_char_lem env w = record {
  by = (
    char_of-IsInAlphabet (env.choice w.asked),
    record { db = refl; committed = refl; outbox = refl },
  );
}

draw_chars_lem :
    (n : ℕ) (env : Env) (w : World)
    → Ends
        (λ s w'. (length s ≡ n) × All IsInAlphabet s × Untouched w w')
        (λ _ _. ⊥)
        (draw_chars n env w)
unfolding draw_chars
draw_chars_lem zero env w = record { by = (refl, tt, Untouched-refl w) }
draw_chars_lem (suc n) env w =
    Ends-bind _ _ env w (draw_char_lem env w) (λ _ _ h. h)
      λ c w₁ (known, t₁).
        Ends-bind _ _ env w₁ (draw_chars_lem n env w₁) (λ _ _ h. h)
          λ s w₂ (size, all, t₂). record { by = (ap suc size, (known, all), Untouched-trans t₁ t₂) }

-- A code has the asked length and only characters of the alphabet, whatever is drawn. It is made
-- without a change to the database, and for a positive length nothing is raised.
pub generate_code_outcome :
    (n : ℕ) (env : Env) (w : World)
    → Ends
        (λ s w'. (length s ≡ suc n) × All IsInAlphabet s × Untouched w w')
        (λ _ _. ⊥)
        (generate_code (suc n) env w)
unfolding generate_code
generate_code_outcome n env w = draw_chars_lem (suc n) env w

-- Whitespace around a code and the case of its letters do not matter.
pub normalize_code-Spells :
    (u : Unicode) (before typed after code : Text)
    → code ≢ []
    → IsSpaces u before
    → Spells u typed code
    → IsSpaces u after
    → normalize_code u (before ++ (typed ++ after)) ≡ code
unfolding normalize_code
normalize_code-Spells u before [] after [] ne hb hs ha = absurd (ne refl)
normalize_code-Spells u before [] after (c ∷ code) ne hb hs ha = absurd hs
normalize_code-Spells u before (t ∷ typed) after code ne hb hs ha =
    rw
      (strip_padded u before (t ∷ typed) after (λ e. cc) hb (Spells-IsSolid u (t ∷ typed) code hs)
        ha)
      (upper-Spells u (t ∷ typed) code hs)

-- Of a code the mask shows no more than the length and the first two characters.
pub mask_code_hides :
    (a b : Text) → length a ≡ length b → take 2 a ≡ take 2 b → mask_code a ≡ mask_code b
unfolding mask_code
mask_code_hides a b same_length same_start = cc
