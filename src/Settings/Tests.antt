-- ===== src/Settings/Tests.antt =====
-- Settings of a concrete environment.
use eq_site_cms_vk_service.Settings.Base.{valid, validate_production_secrets, comma_separated, join}
use eq_site_cms_vk_service.Settings.Secrets.{IsAccepted, secrets, production_starts_iff}
use eq_site_cms_vk_service.Settings.Lists.{comma_separated-join, AreNames}
use eq_site_cms_vk_service.Fixtures.{ascii}
use eq_site_cms_vk_service.Shared.{
  [], ◌∷◌, Option, List, ◌↔◌, ◌⊎◌, ◌≡◌, ◌≢◌, refl, All, map, leb, ◌+◌, ◌&&◌, if◌then◌else◌, some,
}
use eq_site_cms_vk_service.Text.{Text, codes}

abbrev lower_case : Text → Text
lower_case = map (λ c. if leb 65 c && leb c 90 then c + 32 else c)

-- Every variable has the same value.
abbrev everywhere : Text → Option Text
everywhere name = some (codes "kept-elsewhere")

production_starts_iff_example :
    (validate_production_secrets ascii lower_case everywhere (codes "Production")
      ≡ valid (codes "Production"))
    ↔ ((lower_case (codes "Production") ≢ codes "production")
        ⊎ All (IsAccepted ascii lower_case everywhere) secrets)
production_starts_iff_example =
    production_starts_iff ascii lower_case everywhere (codes "Production")

abbrev two_chunks : List Text
two_chunks = codes " ab" ∷ codes "c " ∷ []

two_chunks-AreNames : AreNames ascii two_chunks (codes "ab" ∷ codes "c" ∷ [])
two_chunks-AreNames = (
  record {
    before = codes " ";
    after = [];
    is_chunk = refl;
    no_comma = (refl, (refl, (refl, tt)));
    leads = (refl, tt);
    solid = (refl, (refl, tt));
    trails = tt;
  },
  (
    record {
      before = [];
      after = codes " ";
      is_chunk = refl;
      no_comma = (refl, (refl, tt));
      leads = tt;
      solid = (refl, tt);
      trails = (refl, tt);
    },
    tt,
  ),
)

comma_separated-join_example :
    comma_separated ascii (codes "commands.notification.>") (join (codes ",") two_chunks)
    ≡ codes "ab" ∷ codes "c" ∷ []
comma_separated-join_example =
    comma_separated-join ascii (codes "commands.notification.>") two_chunks
      (codes "ab" ∷ codes "c" ∷ []) (λ e. absurd (cc e)) two_chunks-AreNames
