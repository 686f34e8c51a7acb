-- ===== src/Consistency/Kept.antt =====
-- Every step keeps the invariant.
use eq_site_cms_vk_service.Shared.{List, none, refl, ◌≡◌, ◌≢◌, false, arith}
use eq_site_cms_vk_service.Db.{UserVk, Db, empty_db, VkConfirmation}
use eq_site_cms_vk_service.Repositories.UserVks.{created}
use eq_site_cms_vk_service.Repositories.Confirmations.{unused_of}
use eq_site_cms_vk_service.Steps.Base.{
  Cause, Step, Steps, HasTables, rest, insert, issue, link, unlink, move, here, next,
}
use eq_site_cms_vk_service.Consistency.Base.{AreConsistent, IsConsistent}
use eq_site_cms_vk_service.Consistency.Changes.{
  AreConsistent-insert, AreConsistent-use, AreConsistent-issue, left_unused,
}
use eq_site_cms_vk_service.Consistency.Moves.{
  AreConsistent-link, AreConsistent-unlink, AreConsistent-move,
}

HasTables-IsConsistent :
    {rows : List UserVk} {codes : List VkConfirmation} (db : Db)
    → HasTables rows codes db
    → AreConsistent rows codes
    → IsConsistent db
HasTables-IsConsistent db (e, f) h = rw (e, f) h

pub Step-IsConsistent :
    {cause : Cause} {db db' : Db} → Step db db' cause → IsConsistent db → IsConsistent db'
Step-IsConsistent {cause} {db} {db'} (rest t) h = HasTables-IsConsistent db' t h
Step-IsConsistent {cause} {db} {db'} (insert owner id now absent unique t) h =
    HasTables-IsConsistent db' t (AreConsistent-insert h (created owner id now) refl refl unique)
Step-IsConsistent {cause} {db} {db'} (issue asker c now unused free owner t) h =
    HasTables-IsConsistent db' t (
      AreConsistent-issue (AreConsistent-use h (unused_of c.user_vk_id) now) c unused free owner
        (λ d m e. other d e ((left_unused h (unused_of c.user_vk_id) now d m e).1)))
  where
    other :
        (d : VkConfirmation)
        → d.used_at ≡ none
        → unused_of c.user_vk_id d ≡ false
        → d.user_vk_id ≢ c.user_vk_id
    other d e f g = ground arith
Step-IsConsistent {cause} {db} {db'}
      (link c peer screen_name display_name at now stored unused unique t) h =
    HasTables-IsConsistent db' t
      (AreConsistent-link h c peer screen_name display_name at now stored unused unique)
Step-IsConsistent {cause} {db} {db'} (unlink owner b now at found t) h =
    HasTables-IsConsistent db' t (AreConsistent-unlink h owner b now at found)
Step-IsConsistent {cause} {db} {db'} (move peer state b at settled found t) h =
    HasTables-IsConsistent db' t (AreConsistent-move h peer state b at settled found)

pub Steps-IsConsistent :
    {cause : Cause} {db db' : Db} → Steps cause db db' → IsConsistent db → IsConsistent db'
Steps-IsConsistent here h = h
Steps-IsConsistent (next r s) h = Step-IsConsistent s (Steps-IsConsistent r h)

pub empty_db-IsConsistent : IsConsistent empty_db
empty_db-IsConsistent = record {
  bindings = λ x y m. absurd m;
  confirmations = λ x y m. absurd m;
  peers = λ b m. absurd m;
  awaited = λ c m. absurd m;
  single = λ c d m. absurd m;
}
