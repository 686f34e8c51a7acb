-- ===== src/Migration/Tests.antt =====
-- The migrations on a database that has nothing but the table of the migrations.
use eq_site_cms_vk_service.Migration.Schema.{Schema, execute, column, string}
use eq_site_cms_vk_service.Migration.Models.{metadata}
use eq_site_cms_vk_service.Migration.Versions.{
  upgrade_vk_domain, upgrade_deliveries, downgrade_vk_domain, downgrade_deliveries,
}
use eq_site_cms_vk_service.Migration.RoundTrip.{with_tables, migrations_outcome}
use eq_site_cms_vk_service.Text.{codes, text_eq}
use eq_site_cms_vk_service.Shared.{[], ◌∷◌, ◌++◌, ◌≡◌, refl, some, none, false, any}

abbrev versions_only : Schema
versions_only = record {
  tables =
      record {
        name = codes "alembic_version";
        columns = column (codes "version_num") (string 32) false none ∷ [];
        constraints = [];
      }
      ∷ [];
  indexes = [];
}

migrations_outcome_example :
    (execute (upgrade_vk_domain ++ upgrade_deliveries) versions_only
      ≡ some (with_tables metadata versions_only))
    × (execute (downgrade_deliveries ++ downgrade_vk_domain) (with_tables metadata versions_only)
        ≡ some versions_only)
unfolding text_eq any
migrations_outcome_example = migrations_outcome versions_only (
  (refl, refl, refl, (refl, (refl, (refl, tt)))),
  (
    (refl, refl, refl, (refl, (refl, tt))),
    ((refl, refl, refl, (refl, (refl, (refl, tt)))), ((refl, refl, refl, (refl, tt)), tt)),
  ),
)
