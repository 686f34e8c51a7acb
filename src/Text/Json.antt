-- ===== src/Text/Json.antt =====
-- What `json.loads` gives, and what the SDK of Sentry sends: numbers stand as they are written.
use eq_site_cms_vk_service.Shared.{String, Bool}
use eq_site_cms_vk_service.Text.Base.{Text}

mutual
  pub data Value : Type 0 where
    null : Value
    boolean : Bool → Value
    number : String → Value
    text : Text → Value
    list : Items → Value
    dict : Fields → Value

  pub data Items : Type 0 where
    no_items : Items
    item : Value → Items → Items

  pub data Fields : Type 0 where
    no_fields : Fields
    field : Text → Value → Fields → Fields
