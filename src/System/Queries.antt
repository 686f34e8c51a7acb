-- ===== src/System/Queries.antt =====
-- A query writes nothing.
use eq_site_cms_vk_service.Api.Atomic.{fresh}
use eq_site_cms_vk_service.Shared.{◌≡◌, refl, ap, Option, List}
use eq_site_cms_vk_service.Text.{Text}
use eq_site_cms_vk_service.Db.{Db, Uuid, BindingState}
use eq_site_cms_vk_service.Exec.{Ends-map, Env, World, Result, ok, err, Exec, Ends, reads, lift}
use eq_site_cms_vk_service.Exec.Preserves.{Preserves, Preserves-bind}
use eq_site_cms_vk_service.Repositories.UserVks.{get_by_user_ids}
use eq_site_cms_vk_service.Services.Binding.{get_bindings}
use eq_site_cms_vk_service.Api.{get_vks, read_bindings}
use eq_site_cms_vk_service.Steps.Base.{looks, Steps, Steps-from}
use eq_site_cms_vk_service.System.Requests.{with_session-Steps}

abbrev stored : World → Db × Db
stored w = (w.committed, w.db)

reads-Preserves : {A : Type 0} (f : Env → A) → Preserves stored (reads f)
reads-Preserves f = record { at = λ env w. refl }

lift-Preserves : {A : Type 0} (r : Result A) → Preserves stored (lift r)
lift-Preserves r = record { at = λ env w. refl }

get_bindings-Preserves :
    (ids : List Uuid) (state : Option BindingState) → Preserves stored (get_bindings ids state)
unfolding get_bindings get_by_user_ids
get_bindings-Preserves ids state = record { at = λ env w. refl }

read_bindings-Preserves :
    (parse_uuid : Text → Option Uuid) (ids : Text) (state : Option Text)
    → Preserves stored (read_bindings parse_uuid ids state)
unfolding read_bindings
read_bindings-Preserves parse_uuid ids state =
    search (Preserves-bind, reads-Preserves, lift-Preserves, get_bindings-Preserves)

Ends-stored :
    {A : Type 0} (m : Exec A) (env : Env) (w : World)
    → Preserves stored m
    → Ends (λ _ w'. w'.db ≡ w.db) (λ _ _. Unit) (m env w)
Ends-stored {A} m env w h = go (m env w) (ap (λ x. x.1) (h.at env w))
  where
    go : (x : Result A × World) → x.1.db ≡ w.db → Ends (λ _ w'. w'.db ≡ w.db) (λ _ _. Unit) x
    go (ok a, w') e = record { by = e }
    go (err e, w') _ = record { by = tt }

pub get_vks-Steps :
    (parse_uuid : Text → Option Uuid) (ids : Text) (state : Option Text) (env : Env) (w : World)
    → Steps looks w.committed (get_vks parse_uuid ids state env w).1.committed
unfolding get_vks
get_vks-Steps parse_uuid ids state env w =
    let m = read_bindings parse_uuid ids state in
    let kept = read_bindings-Preserves parse_uuid ids state in
    with_session-Steps m env w (record { at = λ env w. ap (λ x. x.0) (kept.at env w) })
      (Ends-map _ (Ends-stored m env (fresh w) kept) (λ _ w' e. Steps-from e) (λ _ _ _. tt))
