-- ===== src/Text/Words.antt =====
-- The words of a text, and what stands between them.
use mathlib.Core.List.{append_assoc, append-nil, reverse, reverse-append, reverse-reverse}
use eq_site_cms_vk_service.Shared.{
  ◌∙◌, sym, ap, inr, inl, Bool-cases, ◌≢◌, ◌≡◌, refl, true, [], ◌∷◌, ◌++◌,
}
use eq_site_cms_vk_service.Text.Base.{Text, Unicode, lstrip, strip, split, split_from, flush}
use eq_site_cms_vk_service.Text.Laws.{IsSpaces, IsSolid, All-reverse}

module _ (u : Unicode) where
  -- What a word is followed by: nothing, or whitespace and then anything.
  abbrev pub EndsWord : Text → Type 0
  EndsWord [] = Unit
  EndsWord (c ∷ rest) = u.is_space c ≡ true

  split_from-spaces :
      (word spaces : Text) → IsSpaces u spaces → split_from u word spaces ≡ flush word
  unfolding split_from
  split_from-spaces word [] h = refl
  split_from-spaces word (c ∷ spaces) h =
      rw (h.0, split_from-spaces [] spaces h.1) (append-nil (flush word))

  split_from-trailing :
      (word s spaces : Text)
      → IsSpaces u spaces
      → split_from u word (s ++ spaces) ≡ split_from u word s
  unfolding split_from
  split_from-trailing word [] spaces h = split_from-spaces word spaces h
  split_from-trailing word (c ∷ s) spaces h =
      rw (split_from-trailing [] s spaces h, split_from-trailing (word ++ c ∷ []) s spaces h) refl

  split_from-leading :
      (spaces s : Text) → IsSpaces u spaces → split_from u [] (spaces ++ s) ≡ split_from u [] s
  unfolding split_from
  split_from-leading [] s h = refl
  split_from-leading (c ∷ spaces) s h = rw (h.0, split_from-leading spaces s h.1) refl

  lstrip-IsSpaces : (s : Text) → (spaces : Text) × IsSpaces u spaces × (spaces ++ lstrip u s ≡ s)
  unfolding lstrip
  lstrip-IsSpaces [] = ([], tt, refl)
  lstrip-IsSpaces (c ∷ s) = elim (Bool-cases (u.is_space c)) [
    | inl e ↦ let (spaces, h, back) = lstrip-IsSpaces s in (c ∷ spaces, (e, h), rw (e, back) refl)
    | inr e ↦ ([], tt, rw (e) refl)
  ]

  -- Stripping loses no word.
  pub split-strip : (s : Text) → split u (strip u s) ≡ split u s
  unfolding split strip
  split-strip s =
      let (before, hb, eb) = lstrip-IsSpaces s in
      let (after, ha, ea) = lstrip-IsSpaces (reverse (lstrip u s)) in
      let kept = reverse (lstrip u (reverse (lstrip u s))) in
      let whole : kept ++ reverse after ≡ lstrip u s =
        rw
          (
            ← reverse-append after (lstrip u (reverse (lstrip u s))),
            ea,
            reverse-reverse (lstrip u s),
          )
          refl in
      let right : split_from u [] (kept ++ reverse after) ≡ split_from u [] kept =
        split_from-trailing [] kept (reverse after) (All-reverse _ after ha) in
      let left : split_from u [] (before ++ lstrip u s) ≡ split_from u [] (lstrip u s) =
        split_from-leading before (lstrip u s) hb in
      sym (ap (split_from u []) (sym eb) ∙ (left ∙ (ap (split_from u []) (sym whole) ∙ right)))

  split_from-IsSolid :
      (word more rest : Text)
      → IsSolid u more
      → split_from u word (more ++ rest) ≡ split_from u (word ++ more) rest
  unfolding split_from
  split_from-IsSolid word [] rest h = rw (append-nil word) refl
  split_from-IsSolid word (c ∷ more) rest h =
      rw (h.0, split_from-IsSolid (word ++ c ∷ []) more rest h.1, append_assoc word (c ∷ []) more)
        refl

  split_from-EndsWord :
      (word rest : Text)
      → word ≢ []
      → EndsWord rest
      → split_from u word rest ≡ word ∷ split_from u [] rest
  unfolding split_from
  split_from-EndsWord [] rest ne h = absurd (ne refl)
  split_from-EndsWord (c ∷ word) [] ne h = refl
  split_from-EndsWord (c ∷ word) (d ∷ rest) ne h = rw (h) refl

  pub split-first :
      (before word rest : Text)
      → word ≢ []
      → IsSpaces u before
      → IsSolid u word
      → EndsWord rest
      → split u (before ++ (word ++ rest)) ≡ word ∷ split u rest
  unfolding split
  split-first before word rest ne hb hw hr =
      rw (split_from-leading before (word ++ rest) hb, split_from-IsSolid [] word rest hw)
        (split_from-EndsWord word rest ne hr)
