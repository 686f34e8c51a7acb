-- ===== src/Settings/Lists.antt =====
-- The lists of servers and subjects that are given in one variable.
use eq_site_cms_vk_service.Repositories.Query.{is_empty}
use eq_site_cms_vk_service.Settings.Base.{comma_separated, join}
use eq_site_cms_vk_service.Shared.{
  map, not, if◌then◌else◌, ℕ, select, ◌==◌, ◌≡◌, ◌≢◌, refl, List, [], ◌∷◌, ◌++◌, false, All, ap,
  ◌∙◌,
}
use eq_site_cms_vk_service.Text.{Text, Unicode, strip, split_on_from}
use eq_site_cms_vk_service.Text.Laws.{strip_nonempty, IsSpaces, IsSolid, strip_padded}
use mathlib.Core.List.{append_assoc, append-nil}

-- No comma in a text.
abbrev pub HasNoComma : Text → Type 0
HasNoComma = All (λ c. (c == 44) ≡ false)

split_on_from-chunk :
    (chunk s rest : Text)
    → HasNoComma s
    → split_on_from 44 chunk (s ++ 44 ∷ rest) ≡ (chunk ++ s) ∷ split_on_from 44 [] rest
unfolding split_on_from
split_on_from-chunk chunk [] rest h = rw (append-nil chunk) refl
split_on_from-chunk chunk (c ∷ s) rest h = rw (h.0) (
    split_on_from-chunk (chunk ++ c ∷ []) s rest h.1
    ∙ ap (λ t. t ∷ split_on_from 44 [] rest) (append_assoc chunk (c ∷ []) s))

split_on_from-last : (chunk s : Text) → HasNoComma s → split_on_from 44 chunk s ≡ (chunk ++ s) ∷ []
unfolding split_on_from
split_on_from-last chunk [] h = rw (append-nil chunk) refl
split_on_from-last chunk (c ∷ s) h =
    rw (h.0) (
      split_on_from-last (chunk ++ c ∷ []) s h.1 ∙ ap (λ t. t ∷ []) (append_assoc chunk (c ∷ []) s))

module _ (u : Unicode) where
  -- A chunk has no comma, and is a name without whitespace in whitespace.
  pub record Holds (chunk : Text) (first : ℕ) (name : Text) : Type 0 where
    pub before : Text
    pub after : Text
    pub is_chunk : chunk ≡ before ++ ((first ∷ name) ++ after)
    pub no_comma : HasNoComma chunk
    pub leads : IsSpaces u before
    pub solid : IsSolid u (first ∷ name)
    pub trails : IsSpaces u after

  -- The chunks hold these names, one each.
  abbrev pub AreNames : List Text → List Text → Type 0
  AreNames [] [] = Unit
  AreNames (chunk ∷ chunks) ((c ∷ name) ∷ names) = Holds chunk c name × AreNames chunks names
  AreNames _ _ = ⊥

  strip-Holds : (chunk : Text) (c : ℕ) (name : Text) → Holds chunk c name → strip u chunk ≡ c ∷ name
  strip-Holds chunk c name h =
      ap (strip u) h.is_chunk
      ∙ strip_padded u h.before (c ∷ name) h.after (λ e. absurd (cc e)) h.leads h.solid h.trails

  abbrev names_in : Text → List Text
  names_in raw = select (λ part. not (is_empty part)) (map (strip u) (split_on_from 44 [] raw))

  names_in-join :
      (chunks names : List Text)
      → names ≢ []
      → AreNames chunks names
      → names_in (join (44 ∷ []) chunks) ≡ names
  unfolding join select
  names_in-join [] [] n h = absurd (n refl)
  names_in-join [] (name ∷ names) n h = absurd h
  names_in-join (chunk ∷ chunks) [] n h = absurd h
  names_in-join (chunk ∷ chunks) ([] ∷ names) n h = absurd h
  names_in-join (chunk ∷ []) ((c ∷ name) ∷ []) n h =
      rw (split_on_from-last [] chunk h.0.no_comma, strip-Holds chunk c name h.0) refl
  names_in-join (chunk ∷ []) ((c ∷ name) ∷ other ∷ names) n h = absurd h.1
  names_in-join (chunk ∷ next ∷ chunks) ((c ∷ name) ∷ []) n h = absurd h.1
  names_in-join (chunk ∷ next ∷ chunks) ((c ∷ name) ∷ other ∷ names) n h =
      rw
        (
          split_on_from-chunk [] chunk (join (44 ∷ []) (next ∷ chunks)) h.0.no_comma,
          strip-Holds chunk c name h.0,
        )
        (ap (λ more. (c ∷ name) ∷ more)
          (names_in-join (next ∷ chunks) (other ∷ names) (λ e. absurd (cc e)) h.1))

  -- What starts with a name is not blank.
  join-nonblank :
      (chunks names : List Text)
      → names ≢ []
      → AreNames chunks names
      → strip u (join (44 ∷ []) chunks) ≢ []
  unfolding join
  join-nonblank [] [] n h = absurd (n refl)
  join-nonblank [] (name ∷ names) n h = absurd h
  join-nonblank (chunk ∷ chunks) [] n h = absurd h
  join-nonblank (chunk ∷ chunks) ([] ∷ names) n h = absurd h
  join-nonblank (chunk ∷ []) ((c ∷ name) ∷ names) n h =
      rw (h.0.is_chunk) (strip_nonempty u h.0.before (name ++ h.0.after) c h.0.leads h.0.solid.0)
  join-nonblank (chunk ∷ next ∷ chunks) ((c ∷ name) ∷ names) n h =
      rw
        (
          h.0.is_chunk,
          append_assoc h.0.before ((c ∷ name) ++ h.0.after) (44 ∷ join (44 ∷ []) (next ∷ chunks)),
        )
        (strip_nonempty u h.0.before _ c h.0.leads h.0.solid.0)

  -- A variable that lists names, at least one, with commas between them and any whitespace around each,
  -- gives these names in their order, whatever the default is.
  pub comma_separated-join :
      (default : Text) (chunks names : List Text)
      → names ≢ []
      → AreNames chunks names
      → comma_separated u default (join (44 ∷ []) chunks) ≡ names
  unfolding comma_separated
  comma_separated-join default chunks names n h =
      go (strip u (join (44 ∷ []) chunks)) (join-nonblank chunks names n h)
        (names_in-join chunks names n h)
    where
      go :
          (s : Text)
          → s ≢ []
          → names_in (join (44 ∷ []) chunks) ≡ names
          → (if is_empty s then default ∷ [] else names_in (join (44 ∷ []) chunks)) ≡ names
      go [] ne e = absurd (ne refl)
      go (c ∷ s) ne e = e
