-- ===== src/Repositories/Query.antt =====
-- What the repositories use of SQLAlchemy: the ways to take the rows of a result.
use eq_site_cms_vk_service.Shared.{
  ◌≡◌, refl, ℕ, Bool, true, false, Option, none, some, List, [], ◌∷◌, length, leb,
}
use eq_site_cms_vk_service.Errors.{no_result_found, multiple_results_found}
use eq_site_cms_vk_service.Exec.{Result, ok, err}

module _ {ℓ} {A : Type ℓ} where
  -- `result.mappings().one_or_none()`
  unfoldable pub one_or_none : List A → Result (Option A)
  one_or_none [] = ok none
  one_or_none (row ∷ []) = ok (some row)
  one_or_none (_ ∷ _ ∷ _) = err multiple_results_found

  -- `result.mappings().one()`
  unfoldable pub one : List A → Result A
  one [] = err no_result_found
  one (row ∷ []) = ok row
  one (_ ∷ _ ∷ _) = err multiple_results_found

  pub one_or_none-some : (xs : List A) (x : A) → one_or_none xs ≡ ok (some x) → xs ≡ x ∷ []
  unfolding one_or_none
  one_or_none-some [] x h = absurd (cc h)
  one_or_none-some (y ∷ []) x h = cc h
  one_or_none-some (y ∷ z ∷ xs) x h = absurd (cc h)

  pub one_or_none-none : (xs : List A) → one_or_none xs ≡ ok none → xs ≡ []
  unfolding one_or_none
  one_or_none-none [] h = refl
  one_or_none-none (y ∷ []) h = absurd (cc h)
  one_or_none-none (y ∷ z ∷ xs) h = absurd (cc h)

-- Whether a value fits a column of type `String(n)`.
abbrev pub fits {ℓ} : {A : Type ℓ} → ℕ → List A → Bool
fits n text = leb (length text) n

abbrev pub is_empty {ℓ} : {A : Type ℓ} → List A → Bool
is_empty [] = true
is_empty (_ ∷ _) = false
