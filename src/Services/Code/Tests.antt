-- ===== src/Services/Code/Tests.antt =====
-- The theorems on codes at concrete inputs.
use eq_site_cms_vk_service.Services.Code.Laws.{
  generate_code_outcome, mask_code_hides, normalize_code-Spells, IsInAlphabet,
}
use eq_site_cms_vk_service.Services.Code.{generate_code, normalize_code, mask_code}
use eq_site_cms_vk_service.Shared.{refl, ◌≡◌, length, All, ◌++◌}
use eq_site_cms_vk_service.Text.{codes}
use eq_site_cms_vk_service.Exec.{Ends, Untouched}
use eq_site_cms_vk_service.Fixtures.{calm, start, ascii}

generate_code_outcome_example :
    Ends
      (λ s w'. (length s ≡ 8) × All IsInAlphabet s × Untouched start w')
      (λ _ _. ⊥)
      (generate_code 8 calm start)
generate_code_outcome_example = generate_code_outcome 7 calm start

normalize_code-Spells_example :
    normalize_code ascii (codes "  " ++ (codes "aB2" ++ codes " ")) ≡ codes "AB2"
normalize_code-Spells_example =
    normalize_code-Spells ascii (codes "  ") (codes "aB2") (codes " ") (codes "AB2") (λ e. cc)
      (refl, (refl, tt)) (refl, refl, (refl, refl, (refl, refl, tt))) (refl, tt)

mask_code_hides_example : mask_code (codes "AB23") ≡ mask_code (codes "ABXY")
mask_code_hides_example = mask_code_hides (codes "AB23") (codes "ABXY") refl refl
