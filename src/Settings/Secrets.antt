-- ===== src/Settings/Secrets.antt =====
-- Which settings a production process starts with.
use eq_site_cms_vk_service.Text.Parts.{Has, contains_iff, fails_iff, text_eq_iff}
use eq_site_cms_vk_service.Settings.Base.{
  valid, validate_production_secrets, is_unsafe, required, reject, value_or_empty, unsafe,
}
use eq_site_cms_vk_service.Shared.{
  if◌then◌else◌, ◌↔◌, ◌⊎◌, inl, inr, ◌≡◌, ◌≢◌, refl, List, [], ◌∷◌, Bool, true, false, All, select,
  Option, ◌||◌, any, none, some,
}
use eq_site_cms_vk_service.Text.{text_eq, Text, Unicode, codes, strip, contains}

-- A value that is none of the known defaults and has no placeholder in it.
abbrev pub IsSafe : Text → Type 0
IsSafe value =
    (value ≢ codes "")
    × (value ≢ codes "app")
    × (value ≢ codes "changeme")
    × (value ≢ codes "eqsitecmsredis")
    × (Has (codes "<set-") value → ⊥)
    × (Has (codes "<generate-") value → ⊥)

-- An unset variable counts as an empty one.
abbrev pub set_to : Option Text → Text
set_to none = codes ""
set_to (some value) = value

-- The variables that production needs.
abbrev pub secrets : List Text
secrets =
    codes "POSTGRES_PASSWORD"
    ∷ codes "REDIS_PASSWORD"
    ∷ codes "CELERY_APP_BROKER"
    ∷ codes "CELERY_APP_BACKEND"
    ∷ codes "MAIN_BACKEND_SERVICE_KEY"
    ∷ codes "NATS_SERVERS"
    ∷ codes "VK_GROUP_TOKEN"
    ∷ []

select-empty_iff :
    (p : Text → Bool) (names : List Text)
    → (select p names ≡ []) ↔ All (λ name. p name ≡ false) names
unfolding select
select-empty_iff p [] = (λ _. tt, λ _. refl)
select-empty_iff p (name ∷ names) = go (p name) refl (select-empty_iff p names)
  where
    go :
        (b : Bool)
        → p name ≡ b
        → (select p names ≡ []) ↔ All (λ name. p name ≡ false) names
        → ((if b then name ∷ select p names else select p names) ≡ [])
          ↔ ((p name ≡ false) × All (λ name. p name ≡ false) names)
    go true e h = (λ f. absurd (cc f), λ (f, _). absurd (cc (e, f)))
    go false e (there, back) = (λ f. (e, there f), λ (_, f). back f)

none_iff :
    (a b c d e f : Bool)
    → (((a || (b || (c || (d || false)))) || (e || (f || false))) ≡ false)
      ↔ ((a ≡ false) × (b ≡ false) × (c ≡ false) × (d ≡ false) × (e ≡ false) × (f ≡ false))
none_iff true b c d e f = ((λ e. absurd (cc e)), (λ (h, _, _, _, _, _). absurd (cc h)))
none_iff false true c d e f = ((λ e. absurd (cc e)), (λ (_, h, _, _, _, _). absurd (cc h)))
none_iff false false true d e f = ((λ e. absurd (cc e)), (λ (_, _, h, _, _, _). absurd (cc h)))
none_iff false false false true e f = ((λ e. absurd (cc e)), (λ (_, _, _, h, _, _). absurd (cc h)))
none_iff false false false false true f =
    ((λ e. absurd (cc e)), (λ (_, _, _, _, h, _). absurd (cc h)))
none_iff false false false false false true =
    ((λ e. absurd (cc e)), (λ (_, _, _, _, _, h). absurd (cc h)))
none_iff false false false false false false =
    ((λ _. (refl, refl, refl, refl, refl, refl)), (λ _. refl))

differs_iff : (s t : Text) → (text_eq s t ≡ false) ↔ (s ≢ t)
differs_iff s t = fails_iff (text_eq s t) (text_eq_iff s t)

lacks_iff : (s part : Text) → (contains s part ≡ false) ↔ (Has part s → ⊥)
lacks_iff s part = fails_iff (contains s part) (contains_iff s part)

module _ (u : Unicode) (lower : Text → Text) (getenv : Text → Option Text) where
  reject-valid_iff :
      (environment : Text) (names : List Text)
      → (reject u lower getenv environment names ≡ valid environment) ↔ (names ≡ [])
  reject-valid_iff environment [] = (λ _. refl, λ _. refl)
  reject-valid_iff environment (name ∷ rest) = (λ e. absurd (cc e), λ e. absurd (cc e))

  value_lem : (name : Text) → value_or_empty u lower getenv (getenv name) ≡ set_to (getenv name)
  value_lem name = go (getenv name)
    where
      go : (o : Option Text) → value_or_empty u lower getenv o ≡ set_to o
      go none = refl
      go (some value) = refl

  -- A variable that production accepts.
  abbrev pub IsAccepted : Text → Type 0
  IsAccepted name = IsSafe (lower (strip u (set_to (getenv name))))

  is_unsafe_iff : (name : Text) → (is_unsafe u lower getenv name ≡ false) ↔ IsAccepted name
  unfolding is_unsafe any
  is_unsafe_iff name =
      rw (← value_lem name) (go (lower (strip u (value_or_empty u lower getenv (getenv name)))))
    where
      go :
          (v : Text)
          → ((any (text_eq v) unsafe || any (contains v) (codes "<set-" ∷ codes "<generate-" ∷ []))
              ≡ false)
            ↔ IsSafe v
      go v =
          let (there, back) =
            none_iff (text_eq v (codes "")) (text_eq v (codes "app")) (text_eq v (codes "changeme"))
              (text_eq v (codes "eqsitecmsredis")) (contains v (codes "<set-"))
              (contains v (codes "<generate-")) in
          (
            (λ e.
                let (a, b, c, d, f, g) = there e in
                (
                  (differs_iff v _).0 a,
                  (differs_iff v _).0 b,
                  (differs_iff v _).0 c,
                  (differs_iff v _).0 d,
                  (lacks_iff v _).0 f,
                  (lacks_iff v _).0 g,
                )),
            (λ (a, b, c, d, f, g). back (
              (differs_iff v _).1 a,
              (differs_iff v _).1 b,
              (differs_iff v _).1 c,
              (differs_iff v _).1 d,
              (lacks_iff v _).1 f,
              (lacks_iff v _).1 g,
            )),
          )

  safe_iff :
      (names : List Text)
      → All (λ name. is_unsafe u lower getenv name ≡ false) names ↔ All IsAccepted names
  safe_iff [] = ((λ h. h), (λ h. h))
  safe_iff (name ∷ names) =
      let (there, back) = is_unsafe_iff name in
      let (there', back') = safe_iff names in
      ((λ (h, t). (there h, there' t)), (λ (h, t). (back h, back' t)))

  -- The settings are accepted exactly where the environment, in lower case, is not "production", or
  -- each of the seven variables has a value that, stripped and in lower case, is none of "", "app",
  -- "changeme" and "eqsitecmsredis", and has neither "<set-" nor "<generate-" in it; a variable that is
  -- not set has the value "".
  pub production_starts_iff :
      (environment : Text)
      → (validate_production_secrets u lower getenv environment ≡ valid environment)
        ↔ ((lower environment ≢ codes "production") ⊎ All IsAccepted secrets)
  unfolding validate_production_secrets
  production_starts_iff environment =
      go (text_eq (lower environment) (codes "production"))
        (differs_iff (lower environment) (codes "production"))
    where
      names : List Text
      names = select (is_unsafe u lower getenv) required

      go :
          (b : Bool)
          → (b ≡ false) ↔ (lower environment ≢ codes "production")
          → ((if b then reject u lower getenv environment names else valid environment)
              ≡ valid environment)
            ↔ ((lower environment ≢ codes "production") ⊎ All IsAccepted secrets)
      go false (there, back) = (λ _. inl (there refl), λ _. refl)
      go true (there, back) =
          let (none_left, accepted) = reject-valid_iff environment names in
          let (safe, accepting) = select-empty_iff (is_unsafe u lower getenv) required in
          let (strict, loose) = safe_iff required in
          (
            λ e. inr (strict (safe (none_left e))),
            λ h. elim (h) [
              | inl f ↦ absurd (let e = back f in cc e)
              | inr all ↦ accepted (accepting (loose all))
            ],
          )
