-- ===== src/Smoke/Accepted.antt =====
-- What holds of a configuration that the harness accepts.
use mathlib.Core.Option.{some_inj}
use eq_site_cms_vk_service.Repositories.Query.{is_empty}
use eq_site_cms_vk_service.Text.{split_on_from, strip, codes, Text, text_eq}
use eq_site_cms_vk_service.Text.Laws.{text_eq_sound}
use eq_site_cms_vk_service.Text.Json.{
  null, boolean, number, text, list, text, number, boolean, list, Value, Fields, dict, no_fields,
  field,
}
use eq_site_cms_vk_service.Db.{Uuid}
use eq_site_cms_vk_service.Settings.{Validated}
use eq_site_cms_vk_service.Smoke.Messenger.{ScriptedPlan}
use eq_site_cms_vk_service.Smoke.Targets.{AreExact, uuid_list, uuid_list_outcome, Verdict}
use eq_site_cms_vk_service.Smoke.Config.{SmokeHarnessConfig, plan_of, plan_for, values}
use eq_site_cms_vk_service.Smoke.Environment.{
  Python, Environment, or_empty, has_key, required_uuid, not_nil, guarded, keys_match, require_keys,
  one_plan, plans_of, from_environment,
}
use eq_site_cms_vk_service.Shared.{
  any-Member, ◌==◌, not, any, ap, arith, Bool, true, false, Option, none, some, List, [], ◌∷◌, ◌≡◌,
  ◌≢◌, refl, inl, inr, Bool-cases, Member,
}
use eq_site_cms_vk_service.Smoke.Permitted.{
  Ensures, Ensures-bind, reject_if_lem, or_reject_lem, validate_scenario_plan_lem, Permits,
  AreCovered,
}

-- What the harness may rely on.
pub record IsSound (py : Python) (env : Environment) (c : SmokeHarnessConfig) : Type 0 where
  pub enabled : text_eq (or_empty (env (codes "EQSITECMS_SMOKE_HARNESS"))) (codes "1") ≡ true
  pub is_local :
      text_eq
        (py.lower (strip py.unicode (or_empty (env (codes "EQSITECMS_ENVIRONMENT")))))
        (codes "local")
      ≡ true
  pub has_targets : c.target_user_ids ≢ []
  pub exact : AreExact c.target_user_ids
  pub covered : AreCovered c.target_user_ids c.plans
  pub permitted : Permits c.scenario c.target_user_ids c.plans
  pub ids_not_nil : (c.run_id ≢ 0) × (c.event_uuid ≢ 0) × (c.callback_request_id ≢ 0)

module _ (py : Python) (back : (id : Uuid) → py.parse_uuid (py.str_uuid id) ≡ some id) where
  not_nil_lem : (name : Text) (x : Option Uuid) → Ensures (λ id. id ≢ 0) (not_nil py name x)
  not_nil_lem name none = tt
  not_nil_lem name (some id) = elim (Bool-cases (id == 0)) [
    | inl e ↦ rw (e) tt
    | inr e ↦ rw (e) (apart id e)
  ]
    where
      apart : (id : Uuid) → (id == 0) ≡ false → id ≢ 0
      apart id e = ground arith

  required_uuid_lem :
      (env : Environment) (name : Text) → Ensures (λ id. id ≢ 0) (required_uuid py env name)
  unfolding required_uuid
  required_uuid_lem env name =
      not_nil_lem name (py.parse_uuid (strip py.unicode (or_empty (env name))))

  targets_lem : (raw : Text) → Ensures AreExact (guarded (uuid_list py.unicode py.parse_uuid raw))
  targets_lem raw = elim (uuid_list_outcome py.unicode py.parse_uuid raw) [
    | inl (_, e) ↦ rw (e) tt
    | inr (_, v) ↦ judged _ v
  ]
    where
      judged :
          (x : Validated (List Uuid))
          → Verdict py.unicode py.parse_uuid (split_on_from 44 [] raw) x
          → Ensures AreExact (guarded x)
      judged x (inl (_, f)) = rw (f) tt
      judged x (inr (ids, _, inl (h, f))) = rw (f) h
      judged x (inr (ids, _, inr (_, f))) = rw (f) tt

  abbrev HasKeys : List Uuid → Fields → Type 0
  HasKeys targets entries =
      (id : Uuid) → Member id targets → has_key (py.str_uuid id) entries ≡ true

  require_keys_lem :
      (targets : List Uuid) (decoded : Value)
      → Ensures (HasKeys targets) (require_keys py targets decoded)
  require_keys_lem targets (dict entries) = elim (Bool-cases (keys_match py targets entries)) [
    | inr e ↦ rw (e) tt
    | inl e ↦
        let none_missing : any (λ id. not (has_key (py.str_uuid id) entries)) targets ≡ false =
          ground arith in
        rw (e) (λ id m.
          let there =
            any-Member (λ id. not (has_key (py.str_uuid id) entries)) id targets none_missing m in
          ground arith)
  ]
  require_keys_lem targets (list values) = tt
  require_keys_lem targets null = tt
  require_keys_lem targets (boolean b) = tt
  require_keys_lem targets (number n) = tt
  require_keys_lem targets (text s) = tt

  one_plan_lem :
      (key : Text) (value : Value) (a : Uuid × ScriptedPlan)
      → one_plan py key value ≡ some a
      → py.parse_uuid key ≡ some a.0
  one_plan_lem key value a e = go (py.parse_uuid key) (plan_of value) e
    where
      go :
          (x : Option Uuid) (y : Option ScriptedPlan)
          → (elim x [
            | none ↦ none
            | some id ↦ elim y [ none ↦ none | some plan ↦ some (id, plan) ]
          ])
            ≡ some a
          → x ≡ some a.0
      go none y e = absurd (cc e)
      go (some id) none e = absurd (cc e)
      go (some id) (some plan) e = ap (λ p. some p.0) (some_inj.0 e)

  abbrev HavePlans : Fields → List (Uuid × ScriptedPlan) → Type 0
  HavePlans entries plans =
      (id : Uuid)
      → has_key (py.str_uuid id) entries ≡ true
      → (plan : ScriptedPlan) × (plan_for id plans ≡ some plan)

  one_more :
      (key : Text) (value : Value) (rest : Fields) (a : Uuid × ScriptedPlan)
      (plans : List (Uuid × ScriptedPlan))
      → one_plan py key value ≡ some a
      → HavePlans rest plans
      → HavePlans (field key value rest) (a ∷ plans)
  unfolding has_key plan_for
  one_more key value rest (other, plan) plans e h id found = elim (Bool-cases (other == id)) [
    | inl f ↦ (plan, rw (f) refl)
    | inr f ↦ elim (Bool-cases (text_eq key (py.str_uuid id))) [
      | inr g ↦ let (plan', p) = h id (ground arith) in (plan', rw (f) p)
      | inl g ↦
          let same = text_eq_sound key (py.str_uuid id) g in
          let parsed = one_plan_lem key value (other, plan) e in
          let known = back id in
          let equal : some other ≡ some id = cc (same, parsed, known) in
          let other_is : other ≡ id = some_inj.0 equal in absurd (clash other id other_is f)
    ]
  ]
    where
      clash : (a b : Uuid) → a ≡ b → (a == b) ≡ false → ⊥
      clash a b e f = ground arith

  plans_of_lem : (entries : Fields) → Ensures (HavePlans entries) (plans_of py entries)
  unfolding plans_of has_key
  plans_of_lem no_fields = λ id e. absurd (cc e)
  plans_of_lem (field key value rest) =
      Ensures-bind (λ a. one_plan py key value ≡ some a) _ _ _
        (or_reject_lem (one_plan py key value) _)
        (λ a e.
          Ensures-bind (HavePlans rest) (HavePlans (field key value rest)) (plans_of py rest) _
            (plans_of_lem rest) (λ plans h. one_more key value rest a plans e h))

  -- Where `UUID(str(id))` is `id`: whatever the environment says, its configuration is rejected with a message, or accepted: only
  -- where the harness is enabled and the environment is local, with identifiers that are not nil, with targets, all different and none nil, that have a plan each, and with
  -- the plans that its scenario is for: one that always fails for its only target, one that succeeds and
  -- one that first fails, or only such that succeed. No `KeyError` gets out.
  pub from_environment_outcome :
      (env : Environment) → Ensures (IsSound py env) (from_environment py env)
  unfolding from_environment
  from_environment_outcome env = Ensures-bind _ (IsSound py env) _ _ (reject_if_lem _ _) (λ _ flag.
      Ensures-bind _ (IsSound py env) _ _ (reject_if_lem _ _) (λ _ here.
        Ensures-bind _ (IsSound py env) _ _ (required_uuid_lem env (codes "EQSITECMS_SMOKE_RUN_ID"))
          (λ run_id r.
            Ensures-bind _ (IsSound py env) _ _
              (required_uuid_lem env (codes "EQSITECMS_SMOKE_EVENT_ID"))
              (λ event e.
                Ensures-bind _ (IsSound py env) _ _
                  (required_uuid_lem env (codes "EQSITECMS_SMOKE_CALLBACK_REQUEST_ID"))
                  (λ callback c.
                    Ensures-bind _ (IsSound py env) _ _ (or_reject_lem _ _) (λ scenario _.
                      Ensures-bind AreExact (IsSound py env) _ _ (targets_lem _) (λ targets exact.
                        Ensures-bind _ (IsSound py env) _ _ (reject_if_lem _ _) (λ _ some_target.
                          Ensures-bind _ (IsSound py env) _ _ (or_reject_lem _ _) (λ decoded _.
                            Ensures-bind (HasKeys targets) (IsSound py env) _ _
                              (require_keys_lem targets decoded)
                              (λ entries keys.
                                Ensures-bind (HavePlans entries) (IsSound py env) _ _
                                  (plans_of_lem entries)
                                  (λ plans have.
                                    let covered : AreCovered targets plans =
                                      λ id m. have id (keys id m) in
                                    Ensures-bind _ (IsSound py env) _ _
                                      (validate_scenario_plan_lem scenario targets plans covered)
                                      (λ _ permitted. record {
                                        enabled = set flag;
                                        is_local = set here;
                                        has_targets = not_empty targets some_target;
                                        exact = exact;
                                        covered = covered;
                                        permitted = permitted;
                                        ids_not_nil = (r, e, c);
                                      }))))))))))))
    where
      set : {b : Bool} → not b ≡ false → b ≡ true
      set {b} e = ground arith

      not_empty : (targets : List Uuid) → is_empty targets ≡ false → targets ≢ []
      not_empty [] e = absurd (cc e)
      not_empty (id ∷ rest) e = λ f. absurd (cc f)
