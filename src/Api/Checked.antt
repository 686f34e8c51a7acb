-- ===== src/Api/Checked.antt =====
-- What passes the check of the query parameters.
use eq_site_cms_vk_service.Shared.{
  inl, inr, ◌⊎◌, Member, ◌≡◌, ◌≢◌, refl, List, [], ◌∷◌, Option, none, some, Bool, true, false,
  if◌then◌else◌,
}
use eq_site_cms_vk_service.Text.{split_on_from, Text, Unicode, strip}
use eq_site_cms_vk_service.Errors.{status_code}
use eq_site_cms_vk_service.Db.{Uuid}
use eq_site_cms_vk_service.Exec.{Result, ok, err}
use eq_site_cms_vk_service.Repositories.Query.{is_empty}
use eq_site_cms_vk_service.Api.Session.{error_status}
use eq_site_cms_vk_service.Api.Parameters.{parse_user_ids, parse_chunks, append_parsed, require_ids}

module _ (u : Unicode) (parse_uuid : Text → Option Uuid) where
  -- The identifiers are those of the chunks that are not blank, one for each, in their order.
  abbrev pub AreParsed : List Text → List Uuid → Type 0
  AreParsed [] ids = ids ≡ []
  AreParsed (chunk ∷ rest) ids =
      ((strip u chunk ≡ []) × AreParsed rest ids)
      ⊎ ((strip u chunk ≢ [])
          × (id : Uuid) × (later : List Uuid) × (ids ≡ id ∷ later)
          × (parse_uuid (strip u chunk) ≡ some id)
          × AreParsed rest later)

  -- Some chunk is neither blank nor an identifier.
  abbrev pub HasBad : List Text → Type 0
  HasBad chunks =
      (chunk : Text) × Member chunk chunks
      × (strip u chunk ≢ [])
      × (parse_uuid (strip u chunk) ≡ none)

  -- What the chunks give, and with at least one identifier.
  abbrev Chunks : List Text → Result {0} (List Uuid) → Type 0
  Chunks chunks (ok ids) = AreParsed chunks ids
  Chunks chunks (err e) = (error_status e ≡ 400) × HasBad chunks

  abbrev pub IsComplete : List Text → Result {0} (List Uuid) → Type 0
  IsComplete chunks (ok ids) = (ids ≢ []) × AreParsed chunks ids
  IsComplete chunks (err e) = (error_status e ≡ 400) × (HasBad chunks ⊎ AreParsed chunks [])

  HasBad-cons : (chunk : Text) (rest : List Text) → HasBad rest → HasBad (chunk ∷ rest)
  HasBad-cons chunk rest (bad, m, e, f) = (bad, inr m, e, f)

  is_empty_sound : (s : Text) → is_empty s ≡ true → s ≡ []
  is_empty_sound [] e = refl
  is_empty_sound (c ∷ s) e = absurd (cc e)

  is_empty_complete : (s : Text) → is_empty s ≡ false → s ≢ []
  is_empty_complete [] e = absurd (cc e)
  is_empty_complete (c ∷ s) e = λ f. absurd (cc f)

  append_parsed_lem :
      (chunk : Text) (rest : List Text) (found : Option Uuid) (more : Result (List Uuid))
      → strip u chunk ≢ []
      → parse_uuid (strip u chunk) ≡ found
      → Chunks rest more
      → Chunks (chunk ∷ rest) (append_parsed (strip u chunk) found more)
  unfolding error_status status_code
  append_parsed_lem chunk rest none more ne e h = (refl, (chunk, inl refl, ne, e))
  append_parsed_lem chunk rest (some id) (ok ids) ne e h = inr (ne, id, ids, refl, e, h)
  append_parsed_lem chunk rest (some id) (err x) ne e (h, bad) = (h, HasBad-cons chunk rest bad)

  parse_chunks_lem : (chunks : List Text) → Chunks chunks (parse_chunks u parse_uuid chunks)
  unfolding parse_chunks
  parse_chunks_lem [] = refl
  parse_chunks_lem (chunk ∷ rest) =
      go (is_empty (strip u chunk)) refl (parse_chunks u parse_uuid rest) (parse_chunks_lem rest)
    where
      go :
          (b : Bool)
          → is_empty (strip u chunk) ≡ b
          → (more : Result (List Uuid)) → Chunks rest more
          → Chunks
              (chunk ∷ rest)
              (if b then more else append_parsed (strip u chunk) (parse_uuid (strip u chunk)) more)
      go true e (ok ids) h = inl (is_empty_sound (strip u chunk) e, h)
      go true e (err x) (h, bad) = (h, HasBad-cons chunk rest bad)
      go false e more h =
          append_parsed_lem chunk rest (parse_uuid (strip u chunk)) more
            (is_empty_complete (strip u chunk) e) refl h

  require_ids_lem :
      (chunks : List Text) (r : Result (List Uuid))
      → Chunks chunks r
      → IsComplete chunks (require_ids r)
  unfolding error_status status_code
  require_ids_lem chunks (ok []) h = (refl, inr h)
  require_ids_lem chunks (ok (id ∷ ids)) h = ((λ e. absurd (cc e)), h)
  require_ids_lem chunks (err e) (h, bad) = (h, inl bad)

  -- The parameter `user_ids` gives the identifiers of its chunks between commas that are not blank, one for
  -- each, in their order, and at least one; or the request is answered by 400, and then some chunk is
  -- neither blank nor an identifier, or all of them are blank.
  pub parse_user_ids-IsComplete :
      (raw : Text) → IsComplete (split_on_from 44 [] raw) (parse_user_ids u parse_uuid raw)
  unfolding parse_user_ids
  parse_user_ids-IsComplete raw =
      require_ids_lem (split_on_from 44 [] raw)
        (parse_chunks u parse_uuid (split_on_from 44 [] raw))
        (parse_chunks_lem (split_on_from 44 [] raw))
