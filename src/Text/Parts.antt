-- ===== src/Text/Parts.antt =====
-- What a text begins with, and what stands in it.
use eq_site_cms_vk_service.Shared.{
  ◌≡◌, ◌↔◌, refl, Bool, true, false, ◌||◌, ◌&&◌, ◌==◌, ==_iff, [], ◌∷◌, ◌++◌,
}
use eq_site_cms_vk_service.Text.Base.{Text, text_eq, starts_with, contains}
use eq_site_cms_vk_service.Text.Laws.{text_eq_refl, text_eq_sound}

-- The part stands somewhere in the text.
abbrev pub Has : Text → Text → Type 0
Has part s = (before : Text) × (after : Text) × (s ≡ before ++ (part ++ after))

starts_with_iff :
    (s part : Text) → (starts_with s part ≡ true) ↔ ((after : Text) × (s ≡ part ++ after))
unfolding starts_with
starts_with_iff s [] = ((λ _. (s, refl)), (λ _. refl))
starts_with_iff [] (c ∷ part) = ((λ e. absurd (cc e)), (λ (after, e). absurd (cc e)))
starts_with_iff (d ∷ s) (c ∷ part) = go (d == c) (==_iff d c) (starts_with_iff s part)
  where
    go :
        (b : Bool)
        → (b ≡ true) ↔ (d ≡ c)
        → (starts_with s part ≡ true) ↔ ((after : Text) × (s ≡ part ++ after))
        → ((b && starts_with s part) ≡ true) ↔ ((after : Text) × (d ∷ s ≡ (c ∷ part) ++ after))
    go true same (there, back) = (
      (λ e. let (after, h) = there e in (after, cc (same.0 refl, h))),
      (λ (after, h). back (after, cc h)),
    )
    go false same both =
        ((λ e. absurd (cc e)), (λ (after, h). absurd (let e = same.1 (cc h) in cc e)))

pub contains_iff : (s part : Text) → (contains s part ≡ true) ↔ Has part s
unfolding contains
contains_iff [] part =
    ((λ e. let (after, h) = (starts_with_iff [] part).0 e in ([], after, h)), back)
  where
    back : Has part [] → starts_with [] part ≡ true
    back ([], after, h) = (starts_with_iff [] part).1 (after, h)
    back (b ∷ before, after, h) = absurd (cc h)
contains_iff (c ∷ s) part =
    go (starts_with (c ∷ s) part) (starts_with_iff (c ∷ s) part) (contains_iff s part)
  where
    go :
        (b : Bool)
        → (b ≡ true) ↔ ((after : Text) × (c ∷ s ≡ part ++ after))
        → (contains s part ≡ true) ↔ Has part s
        → ((b || contains s part) ≡ true) ↔ Has part (c ∷ s)
    go true first later = ((λ _. let (after, h) = first.0 refl in ([], after, h)), (λ _. refl))
    go false first later =
        ((λ e. let (before, after, h) = later.0 e in (c ∷ before, after, cc h)), back)
      where
        back : Has part (c ∷ s) → contains s part ≡ true
        back ([], after, h) = absurd (let e = first.1 (after, h) in cc e)
        back (b ∷ before, after, h) = later.1 (before, after, cc h)

-- A test that fails is that of a claim that does not hold.
pub fails_iff : {P : Type 0} (b : Bool) → (b ≡ true) ↔ P → (b ≡ false) ↔ (P → ⊥)
fails_iff true h = ((λ e. absurd (cc e)), (λ n. absurd (n (h.0 refl))))
fails_iff false h = ((λ _ p. let e = h.1 p in cc e), (λ _. refl))

pub text_eq_iff : (s t : Text) → (text_eq s t ≡ true) ↔ (s ≡ t)
text_eq_iff s t = (text_eq_sound s t, (λ e. rw (e) (text_eq_refl t)))
