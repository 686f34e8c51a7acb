-- ===== src/Lifecycle/Kept.antt =====
-- Every event moves every owner as the diagram of phases allows.
use eq_site_cms_vk_service.Consistency.Rows.{is_unique-Distinct}
use eq_site_cms_vk_service.Repositories.Query.{one_or_none-none}
use eq_site_cms_vk_service.Shared.{refl}
use eq_site_cms_vk_service.Shared.{inl}
use eq_site_cms_vk_service.Consistency.Base.{IsConsistent}
use eq_site_cms_vk_service.Db.{Uuid, Db}
use eq_site_cms_vk_service.Steps.Base.{
  Cause, Step, Steps, rest, insert, issue, link, unlink, move, here, next,
}
use eq_site_cms_vk_service.Lifecycle.Base.{Follows, Follows-trans, phase}
use eq_site_cms_vk_service.Lifecycle.Changes.{Follows-insert, Follows-link, Follows-unlink}
use eq_site_cms_vk_service.Lifecycle.Permits.{Follows-move}
use eq_site_cms_vk_service.Consistency.Kept.{Step-IsConsistent, Steps-IsConsistent}

-- A step moves an owner as the cause allows.
pub Step-Follows :
    {cause : Cause} {db db' : Db} (owner : Uuid)
    → Step db db' cause
    → IsConsistent db
    → IsConsistent db'
    → Follows owner cause (phase owner db) (phase owner db')
Step-Follows {cause} {db} {db'} owner (rest (e, _)) h h' = inl (rw (e) refl)
Step-Follows {cause} {db} {db'} owner (insert asker id now absent unique (e, _)) h h' =
    rw (e) (Follows-insert h owner asker id now (one_or_none-none _ absent))
Step-Follows {cause} {db} {db'} owner (issue asker c now unused free awaits (e, _)) h h' =
    inl (rw (e) refl)
Step-Follows {cause} {db} {db'} owner
      (link c peer screen_name display_name at now stored unused unique (e, _)) h h' =
    rw (e) (
      Follows-link h owner c peer screen_name display_name at (h.awaited c stored unused)
        (is_unique-Distinct _ unique))
Step-Follows {cause} {db} {db'} owner (unlink asker b now at found (e, _)) h h' =
    rw (e) (Follows-unlink h owner asker at)
Step-Follows {cause} {db} {db'} owner (move peer state b at settled found (e, _)) h h' =
    rw (e) (Follows-move h owner peer state b at settled found)

pub Steps-Follows :
    {cause : Cause} {db db' : Db} (owner : Uuid)
    → Steps cause db db'
    → IsConsistent db
    → Follows owner cause (phase owner db) (phase owner db')
Steps-Follows owner here h = inl refl
Steps-Follows owner (next r s) h =
    let before = Steps-IsConsistent r h in
    Follows-trans owner _ _ _ _ (Steps-Follows owner r h)
      (Step-Follows owner s before (Step-IsConsistent s before))
