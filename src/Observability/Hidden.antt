-- ===== src/Observability/Hidden.antt =====
-- What can still be read at a path of an event after `_sanitize`.
use mathlib.Core.Option.{some_inj}
use eq_site_cms_vk_service.Settings.{SentrySettings}
use eq_site_cms_vk_service.Text.Laws.{text_eq_sound, text_eq_refl}
use eq_site_cms_vk_service.Shared.{
  refl, inl, ◌∙◌, Bool-cases, true, inr, arith, ◌⊎◌, ◌≡◌, Bool, false, ◌||◌, ℕ, zero, suc, Option,
  none, some, List, [], ◌∷◌, if◌then◌else◌,
}
use eq_site_cms_vk_service.Text.{codes, Text, text_eq}
use eq_site_cms_vk_service.Text.Json.{
  null, text, number, boolean, Value, Items, Fields, list, dict, no_items, item, no_fields, field,
}
use eq_site_cms_vk_service.Observability.Sanitize.{
  initialised, SentryInit, configure_sentry, sanitize_items, sanitize_fields, filtered, sanitize,
  is_sensitive, is_dropped,
}
use mathlib.Core.Option

unfoldable pub lookup : Text → Fields → Option Value
lookup key no_fields = none
lookup key (field other value rest) =
    let later = lookup key rest in if text_eq other key then some value else later

unfoldable pub nth : ℕ → Items → Option Value
nth n no_items = none
nth zero (item value rest) = some value
nth (suc n) (item value rest) = nth n rest

-- A step into a value: to a key of a dictionary, or to a place of a list.
pub data Into : Type 0 where
  key : Text → Into
  place : ℕ → Into

unfoldable pub enter : Into → Value → Option Value
unfolding lookup nth
enter (key k) (dict entries) = lookup k entries
enter (place n) (list values) = nth n values
enter _ _ = none

-- What stands at a path, from the outside in.
unfoldable pub at : List Into → Value → Option Value
at [] value = some value
at (step ∷ path) value = Option.bind (enter step value) (at path)

module _ (lower : Text → Text) where
  abbrev pub is_private : Into → Bool
  is_private (key k) = is_dropped lower k || is_sensitive lower k
  is_private (place n) = false

  abbrev pub goes_through_private : List Into → Bool
  goes_through_private [] = false
  goes_through_private (step ∷ path) = is_private step || goes_through_private path

  -- What `_sanitize` leaves at a key of a dictionary where `found` stood.
  abbrev kept_at : Text → Option Value → Option Value
  kept_at k found =
      if is_dropped lower k
      then none
      else Option.map (λ value. if is_sensitive lower k then filtered else sanitize lower value)
          found

  lookup_same :
      (k : Text) (value : Value) (rest : Fields)
      → lookup k (sanitize_fields lower rest) ≡ kept_at k (lookup k rest)
      → lookup k (sanitize_fields lower (field k value rest)) ≡ kept_at k (some value)
  unfolding sanitize lookup
  lookup_same k value rest later = elim (Bool-cases (is_dropped lower k)) [
    | inl e ↦ rw (e) (later ∙ rw (e) refl)
    | inr e ↦ rw (e, text_eq_refl k) refl
  ]

  lookup_other :
      (k other : Text) (value : Value) (rest : Fields)
      → text_eq other k ≡ false
      → lookup k (sanitize_fields lower (field other value rest))
        ≡ lookup k (sanitize_fields lower rest)
  unfolding sanitize lookup
  lookup_other k other value rest apart = elim (Bool-cases (is_dropped lower other)) [
    | inl e ↦ rw (e) refl
    | inr e ↦ rw (e, apart) refl
  ]

  lookup-sanitize_fields :
      (k : Text) (entries : Fields)
      → lookup k (sanitize_fields lower entries) ≡ kept_at k (lookup k entries)
  unfolding sanitize lookup
  lookup-sanitize_fields k no_fields = elim (Bool-cases (is_dropped lower k)) [
    | inl e ↦ rw (e) refl
    | inr e ↦ rw (e) refl
  ]
  lookup-sanitize_fields k (field other value rest) = elim (Bool-cases (text_eq other k)) [
    | inl e ↦
        let same = text_eq_sound other k e in
        rw (same, text_eq_refl k) (lookup_same k value rest (lookup-sanitize_fields k rest))
    | inr e ↦ rw (e) (lookup_other k other value rest e ∙ lookup-sanitize_fields k rest)
  ]

  nth-sanitize_items :
      (n : ℕ) (items : Items)
      → nth n (sanitize_items lower items) ≡ Option.map (sanitize lower) (nth n items)
  unfolding sanitize nth
  nth-sanitize_items n no_items = refl
  nth-sanitize_items zero (item value rest) = refl
  nth-sanitize_items (suc n) (item value rest) = nth-sanitize_items n rest

  -- Nothing, or what stands in for a secret.
  abbrev pub IsHidden : Option Value → Type 0
  IsHidden found = (found ≡ none) ⊎ (found ≡ some filtered)

  -- A step that is not private is not disturbed.
  enter_plain :
      (step : Into) (value : Value)
      → is_private step ≡ false
      → enter step (sanitize lower value) ≡ Option.map (sanitize lower) (enter step value)
  unfolding enter sanitize
  enter_plain (key k) (dict entries) e =
      let kept : is_dropped lower k ≡ false = ground arith in
      let open_key : is_sensitive lower k ≡ false = ground arith in
      lookup-sanitize_fields k entries ∙ rw (kept, open_key) refl
  enter_plain (place n) (list values) e = nth-sanitize_items n values
  enter_plain (key k) (list values) e = refl
  enter_plain (key k) null e = refl
  enter_plain (key k) (boolean b) e = refl
  enter_plain (key k) (number n) e = refl
  enter_plain (key k) (text s) e = refl
  enter_plain (place n) (dict entries) e = refl
  enter_plain (place n) null e = refl
  enter_plain (place n) (boolean b) e = refl
  enter_plain (place n) (number _) e = refl
  enter_plain (place n) (text s) e = refl

  replaced :
      {found : Option Value} (x : Option Value)
      → found ≡ Option.map (λ value. filtered) x
      → IsHidden found
  replaced none e = inl e
  replaced (some value) e = inr e

  enter_private :
      (step : Into) (value : Value)
      → is_private step ≡ true
      → IsHidden (enter step (sanitize lower value))
  unfolding enter sanitize
  enter_private (key k) (dict entries) e = elim (Bool-cases (is_dropped lower k)) [
    | inl d ↦ inl (lookup-sanitize_fields k entries ∙ rw (d) refl)
    | inr d ↦
        let secret : is_sensitive lower k ≡ true = ground arith in
        replaced (lookup k entries) (lookup-sanitize_fields k entries ∙ rw (d, secret) refl)
  ]
  enter_private (key k) (list values) e = inl refl
  enter_private (key k) null e = inl refl
  enter_private (key k) (boolean b) e = inl refl
  enter_private (key k) (number n) e = inl refl
  enter_private (key k) (text s) e = inl refl
  enter_private (place n) value e = absurd (cc e)

  -- Nothing can be entered below what stands in for a secret.
  at-filtered : (path : List Into) → IsHidden (at path filtered)
  unfolding at enter Option.bind
  at-filtered [] = inr refl
  at-filtered (key k ∷ path) = inl refl
  at-filtered (place n ∷ path) = inl refl

  entered_private :
      (found : Option Value) (path : List Into)
      → IsHidden found
      → IsHidden (Option.bind found (at path))
  unfolding Option.bind
  entered_private found path (inl e) = rw (e) (inl refl)
  entered_private found path (inr e) = rw (e) (at-filtered path)

  -- What is left of a value at a path: where the path goes through a sensitive key or one that is
  -- dropped, at any depth, nothing is found there, or the text that stands in for a secret; at any other
  -- path stands what stood there, itself sanitised, and nothing is lost.
  pub sanitize_outcome :
      (path : List Into) (value : Value)
      → ((goes_through_private path ≡ true) × IsHidden (at path (sanitize lower value)))
        ⊎ ((goes_through_private path ≡ false)
            × (at path (sanitize lower value) ≡ Option.map (sanitize lower) (at path value)))
  unfolding at Option.bind
  sanitize_outcome [] value = inr (refl, refl)
  sanitize_outcome (step ∷ path) value = elim (Bool-cases (is_private step)) [
    | inl e ↦ inl (rw (e) refl, entered_private _ path (enter_private step value e))
    | inr e ↦ rw (e, enter_plain step value e) (further (enter step value) (sanitize_outcome path))
  ]
    where
      further :
          (found : Option Value)
          → ((value : Value)
              → ((goes_through_private path ≡ true) × IsHidden (at path (sanitize lower value)))
                ⊎ ((goes_through_private path ≡ false)
                    × (at path (sanitize lower value)
                        ≡ Option.map (sanitize lower) (at path value))))
          → ((goes_through_private path ≡ true)
              × IsHidden (Option.bind (Option.map (sanitize lower) found) (at path)))
            ⊎ ((goes_through_private path ≡ false)
                × (Option.bind (Option.map (sanitize lower) found) (at path)
                    ≡ Option.map (sanitize lower) (Option.bind found (at path))))
      further none h = elim (Bool-cases (goes_through_private path)) [
        | inl e ↦ inl (e, inl refl)
        | inr e ↦ inr (e, refl)
      ]
      further (some value) h = h value

  -- Where the settings enable Sentry, no personal data is added to an event, no body of a request is
  -- attached to it, and this is what is left at each path of an event that is sent: where the path goes
  -- through a sensitive key or one that is dropped, at any depth, nothing is found there, or the text that
  -- stands in for a secret; at any other path stands what stood there, itself sanitised.
  pub configure_sentry_outcome :
      (config : SentrySettings) (sdk : SentryInit) (path : List Into) (event : Value)
      → configure_sentry lower config ≡ some sdk
      → (config.sentry_enabled ≡ true)
        × (sdk.send_default_pii ≡ false)
        × (sdk.max_request_body_size ≡ codes "never")
        × (((goes_through_private path ≡ true) × IsHidden (at path (sdk.before_send event)))
            ⊎ ((goes_through_private path ≡ false)
                × (at path (sdk.before_send event) ≡ Option.map (sanitize lower) (at path event))))
  unfolding configure_sentry
  configure_sentry_outcome config sdk path event e =
      let (on, same) = enabled config.sentry_enabled e in
      rw (← same) (on, refl, refl, sanitize_outcome path event)
    where
      enabled :
          (b : Bool)
          → (if b then some (initialised lower config) else none) ≡ some sdk
          → (b ≡ true) × (initialised lower config ≡ sdk)
      enabled true h = (refl, some_inj.0 h)
      enabled false h = absurd (cc h)
