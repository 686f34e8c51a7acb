-- ===== src/Shared/Members.antt =====
-- Membership in a list, and what `select`, `any` and `update_where` do to it.
use mathlib.Core.Path.{◌≡◌, refl}
use mathlib.Core.Logic.{◌⊎◌, inl, inr}
use mathlib.Core.Bool.{Bool, true, false}
use mathlib.Core.List.{List, [], ◌∷◌}
use native.Mathlib.Omega.{arith}
use eq_site_cms_vk_service.Shared.Tests.{if◌then◌else◌}
use eq_site_cms_vk_service.Shared.Lists.{select, any, update_where}

module _ {A : Type 0} where
  abbrev pub Member : A → List A → Type 0
  Member x [] = ⊥
  Member x (y ∷ ys) = (x ≡ y) ⊎ Member x ys

  pub Member-select :
      (p : A → Bool) (x : A) (xs : List A) → Member x (select p xs) → Member x xs × (p x ≡ true)
  unfolding select
  Member-select p x [] m = absurd m
  Member-select p x (y ∷ ys) m = go (λ r. Member-select p x ys r) (p y) refl m
    where
      go :
          (Member x (select p ys) → Member x ys × (p x ≡ true))
          → (b : Bool) → p y ≡ b
          → Member x (if b then y ∷ select p ys else select p ys)
          → Member x (y ∷ ys) × (p x ≡ true)
      go rest true e (inl h) = (inl h, rw (h) e)
      go rest true e (inr m) = let r = rest m in (inr r.0, r.1)
      go rest false e m = let r = rest m in (inr r.0, r.1)

  pub select-Member :
      (p : A → Bool) (x : A) (xs : List A) → Member x xs → p x ≡ true → Member x (select p xs)
  unfolding select
  select-Member p x [] m e = absurd m
  select-Member p x (y ∷ ys) (inl h) e = let here : p y ≡ true = rw (← h) e in rw (here) (inl h)
  select-Member p x (y ∷ ys) (inr m) e = go (select-Member p x ys m e) (p y)
    where
      go :
          Member x (select p ys)
          → (b : Bool) → Member x (if b then y ∷ select p ys else select p ys)
      go rest true = inr rest
      go rest false = rest

  -- What an update has made of a row.
  abbrev pub updated : (A → Bool) → (A → A) → A → A
  updated p f x = if p x then f x else x

  pub Member-update_where :
      (p : A → Bool) (f : A → A) (y : A) (xs : List A)
      → Member y (update_where p f xs)
      → (x : A) × Member x xs × (y ≡ updated p f x)
  unfolding update_where
  Member-update_where p f y [] m = absurd m
  Member-update_where p f y (x ∷ xs) (inl h) = (x, inl refl, h)
  Member-update_where p f y (x ∷ xs) (inr m) =
      let (z, r, e) = Member-update_where p f y xs m in (z, inr r, e)

  pub update_where-Member :
      (p : A → Bool) (f : A → A) (x : A) (xs : List A)
      → Member x xs
      → Member (updated p f x) (update_where p f xs)
  unfolding update_where
  update_where-Member p f x [] m = absurd m
  update_where-Member p f x (y ∷ ys) (inl h) = inl (rw (h) refl)
  update_where-Member p f x (y ∷ ys) (inr m) = inr (update_where-Member p f x ys m)

  pub any-Member :
      (p : A → Bool) (x : A) (xs : List A) → any p xs ≡ false → Member x xs → p x ≡ false
  unfolding any
  any-Member p x [] e m = absurd m
  any-Member p x (y ∷ ys) e (inl h) = rw (h) (ground arith)
  any-Member p x (y ∷ ys) e (inr m) =
      let rest : any p ys ≡ false = ground arith in any-Member p x ys rest m
