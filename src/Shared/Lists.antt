-- ===== src/Shared/Lists.antt =====
-- Lists measured by native numbers, Boolean filters, and predicates over all elements.
use Prim.Native.Nat.{ℕ, zero, suc}
use mathlib.Core.Path.{◌≡◌, refl}
use mathlib.Core.Bool.{Bool, true, false, ◌||◌}
use mathlib.Core.List.{map, List, [], ◌∷◌}
use native.Mathlib.Omega.{arith}
use eq_site_cms_vk_service.Shared.Tests.{if◌then◌else◌}

module _ {ℓ} {A : Type ℓ} where
  abbrev pub length : List A → ℕ
  length [] = 0
  length (x ∷ xs) = suc (length xs)

  abbrev pub take : ℕ → List A → List A
  take zero xs = []
  take (suc n) [] = []
  take (suc n) (x ∷ xs) = x ∷ take n xs

  abbrev pub get_or : List A → ℕ → A → A
  get_or [] i d = d
  get_or (x ∷ xs) zero d = x
  get_or (x ∷ xs) (suc i) d = get_or xs i d

  -- the rows that satisfy a `WHERE` clause
  unfoldable pub select : (A → Bool) → List A → List A
  select p [] = []
  select p (x ∷ xs) = let rest = select p xs in if p x then x ∷ rest else rest

  unfoldable pub any : (A → Bool) → List A → Bool
  any p [] = false
  any p (x ∷ xs) = p x || any p xs

  -- `UPDATE … SET f WHERE p`
  unfoldable pub update_where : (A → Bool) → (A → A) → List A → List A
  update_where p f [] = []
  update_where p f (x ∷ xs) = (if p x then f x else x) ∷ update_where p f xs

module _ {ℓ κ} {A : Type ℓ} where
  abbrev pub All : (A → Type κ) → List A → Type κ
  All P [] = Unit
  All P (x ∷ xs) = P x × All P xs

  pub All-update_where :
      (P : A → Type κ) (p : A → Bool) (f : A → A) (xs : List A)
      → ((x : A) → P x → p x ≡ true → P (f x))
      → All P xs
      → All P (update_where p f xs)
  unfolding update_where
  All-update_where P p f [] keep h = tt
  All-update_where P p f (x ∷ xs) keep h = (step (p x) refl, All-update_where P p f xs keep h.1)
    where
      step : (b : Bool) → p x ≡ b → P (if b then f x else x)
      step true e = keep x h.0 e
      step false e = h.0

module _ {ℓ} {A : Type ℓ} where
  -- An update that takes every row out of its condition leaves none in it.
  pub select-update_where :
      (p : A → Bool) (f : A → A) (xs : List A)
      → ((x : A) → p (f x) ≡ false)
      → select p (update_where p f xs) ≡ []
  unfolding select update_where
  select-update_where p f [] out = refl
  select-update_where p f (x ∷ xs) out = ground (arith, out x, select-update_where p f xs out)

  -- An update that keeps its condition updates the rows that it selects.
  pub select-update_where_kept :
      (p : A → Bool) (f : A → A) (xs : List A)
      → ((x : A) → p (f x) ≡ p x)
      → select p (update_where p f xs) ≡ map f (select p xs)
  unfolding select update_where
  select-update_where_kept p f [] keep = refl
  select-update_where_kept p f (x ∷ xs) keep =
      let ih = select-update_where_kept p f xs keep in ground (arith, keep x, ih)
