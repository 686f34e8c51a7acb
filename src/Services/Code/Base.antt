-- ===== src/Services/Code/Base.antt =====
-- src/core/services/vk_code.py: making, normalising and masking a confirmation code. The length is
-- a setting that is validated to be at least 4, so it is a natural number here.
use eq_site_cms_vk_service.Shared.{ℕ, zero, suc, ◌%◌, [], ◌∷◌, ◌++◌, length, take, get_or}
use eq_site_cms_vk_service.Text.{Text, Unicode, codes, strip, upper, decimal}
use eq_site_cms_vk_service.Errors.{value_error}
use eq_site_cms_vk_service.Exec.{Exec, pure, raise, ask, ◌>>=◌}

abbrev pub code_alphabet : Text
code_alphabet = codes "ABCDEFGHJKLMNPQRSTUVWXYZ23456789"

abbrev pub max_generation_attempts : ℕ
max_generation_attempts = 5

abbrev pub mask_visible_chars : ℕ
mask_visible_chars = 2

-- The character that a draw stands for. Whatever the draw, it is a character of the alphabet.
unfoldable pub char_of : ℕ → ℕ
char_of draw = get_or code_alphabet (draw % 32) 0

-- `secrets.choice(CODE_ALPHABET)`
unfoldable pub draw_char : Exec ℕ
draw_char = ask (λ env n. char_of (env.choice n))

unfoldable pub draw_chars : ℕ → Exec Text
unfolding draw_char
draw_chars zero = pure []
draw_chars (suc n) = do c ← draw_char; s ← draw_chars n; pure (c ∷ s)

unfoldable pub generate_code : ℕ → Exec Text
generate_code zero = raise value_error
generate_code (suc n) = draw_chars (suc n)

unfoldable pub normalize_code : Unicode → Text → Text
normalize_code u raw = upper u (strip u raw)

unfoldable pub mask_code : Text → Text
mask_code code =
    take mask_visible_chars code ++ (codes "***(len=" ++ (decimal (length code) ++ codes ")"))
