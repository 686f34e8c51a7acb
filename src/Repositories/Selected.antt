-- ===== src/Repositories/Selected.antt =====
-- What the only row of a lookup is.
use eq_site_cms_vk_service.Shared.{
  ◌≡◌, inl, inr, Bool, true, List, [], ◌∷◌, some, Member, select, Member-select, select-Member,
}
use eq_site_cms_vk_service.Exec.{ok}
use eq_site_cms_vk_service.Repositories.Query.{one_or_none, one_or_none-some}

-- The only row of a result stands in the table, and is the only one there that it selects.
pub one_or_none-only :
    {A : Type 0} (p : A → Bool) (xs : List A) (b : A)
    → one_or_none (select p xs) ≡ ok (some b)
    → (Member b xs × (p b ≡ true)) × ((x : A) → Member x xs → p x ≡ true → x ≡ b)
one_or_none-only {A} p xs b e =
    let only : select p xs ≡ b ∷ [] = one_or_none-some (select p xs) b e in
    (
      Member-select p b xs (here (select p xs) only),
      λ x m t. alone (select p xs) only x (select-Member p x xs m t),
    )
  where
    here : (ys : List A) → ys ≡ b ∷ [] → Member b ys
    here [] e = absurd (cc e)
    here (y ∷ ys) e = inl (cc e)

    alone : (ys : List A) → ys ≡ b ∷ [] → (x : A) → Member x ys → x ≡ b
    alone [] e x m = absurd m
    alone (y ∷ []) e x (inl h) = cc (e, h)
    alone (y ∷ []) e x (inr h) = absurd h
    alone (y ∷ z ∷ ys) e x m = absurd (cc e)
