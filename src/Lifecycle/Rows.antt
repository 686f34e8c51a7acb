-- ===== src/Lifecycle/Rows.antt =====
-- The phase of an owner, by the rows of the bindings.
use eq_site_cms_vk_service.Repositories.UserVks.Effects.{live_of_user}
use eq_site_cms_vk_service.Db.{UserVk, Uuid}
use eq_site_cms_vk_service.Shared.{
  select-Member, Member-select, ap, select, Bool-cases, inl, inr, ◌⊎◌, ◌∷◌, arith, false, true,
  List, [], ◌≡◌, refl, Member,
}
use eq_site_cms_vk_service.Consistency.Base.{Distinct}
use eq_site_cms_vk_service.Repositories.UserVks
use eq_site_cms_vk_service.Lifecycle.Base.{phase_among, phase_of, absent, phase_of_first}

-- A live row of an owner tells the phase.
pub phase_among-Member :
    (owner : Uuid) (rows : List UserVk) (b : UserVk)
    → Distinct UserVks.conflicts rows
    → Member b rows
    → live_of_user owner b ≡ true
    → phase_among owner rows ≡ phase_of b
unfolding UserVks.conflicts
phase_among-Member owner rows b distinct stored live =
    first (select (live_of_user owner) rows) (select-Member (live_of_user owner) b rows stored live)
      (λ x m. Member-select (live_of_user owner) x rows m)
  where
    clash : (x : UserVk) → live_of_user owner x ≡ true → UserVks.conflicts x b ≡ true
    clash x e = ground arith

    first :
        (ys : List UserVk)
        → Member b ys
        → ((x : UserVk) → Member x ys → Member x rows × (live_of_user owner x ≡ true))
        → phase_of_first ys ≡ phase_of b
    first [] m h = absurd m
    first (x ∷ ys) m h =
        let (n, e) = h x (inl refl) in ap phase_of (distinct x b n stored (clash x e))

-- Without a live row there is no link.
pub phase_among-absent :
    (owner : Uuid) (rows : List UserVk)
    → ((x : UserVk) → Member x rows → live_of_user owner x ≡ false)
    → phase_among owner rows ≡ absent
phase_among-absent owner rows none_live =
    first (select (live_of_user owner) rows) (λ x m. Member-select (live_of_user owner) x rows m)
  where
    first :
        (ys : List UserVk)
        → ((x : UserVk) → Member x ys → Member x rows × (live_of_user owner x ≡ true))
        → phase_of_first ys ≡ absent
    first [] h = refl
    first (x ∷ ys) h = let (n, e) = h x (inl refl) in let f = none_live x n in absurd (cc (e, f))

-- An owner has a live row, or none.
pub live-cases :
    (owner : Uuid) (rows : List UserVk)
    → ((b : UserVk) × Member b rows × (live_of_user owner b ≡ true))
      ⊎ ((x : UserVk) → Member x rows → live_of_user owner x ≡ false)
live-cases owner [] = inr (λ x m. absurd m)
live-cases owner (r ∷ rows) = elim (Bool-cases (live_of_user owner r)) [
  | inl e ↦ inl (r, inl refl, e)
  | inr e ↦ elim (live-cases owner rows) [
    | inl (b, m, f) ↦ inl (b, inr m, f)
    | inr h ↦ inr (λ x m. elim m [ inl same ↦ rw (same) e | inr n ↦ h x n ])
  ]
]
