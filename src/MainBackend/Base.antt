-- ===== src/MainBackend/Base.antt =====
-- The request for users, and what becomes of each answer to it.
use eq_site_cms_vk_service.Repositories.Query.{is_empty}
use eq_site_cms_vk_service.Shared.{
  ℕ, Option, none, some, List, [], ◌∷◌, ◌++◌, ◌&&◌, map, ◌==◌, if◌then◌else◌,
}
use eq_site_cms_vk_service.Text.{Text, codes, decimal}

-- The exceptions below `MainBackendClientError`.
pub data ClientError : Type 0 where
  connection_error : Text → ClientError
  timeout_error : Text → ClientError
  response_error : ℕ → Text → ClientError

-- `status_code`, and the message that `__init__` makes
unfoldable pub error_code : ClientError → ℕ
error_code (connection_error detail) = 500
error_code (timeout_error detail) = 500
error_code (response_error status detail) = 500

unfoldable pub message : ClientError → Text
message (connection_error detail) = detail
message (timeout_error detail) = detail
message (response_error status detail) =
    detail ++ (codes " (HTTP " ++ (decimal status ++ codes ")"))

-- A parameter of the query, with its values.
abbrev pub Param : Type 0
Param = Text × List Text

pub record Request : Type 0 where
  pub url : Text
  pub params : List Param
  pub headers : List (Text × Text)

-- `text.rstrip("/")`
unfoldable pub rstrip_slashes : Text → Text
rstrip_slashes [] = []
rstrip_slashes (c ∷ s) =
    let rest = rstrip_slashes s in if is_empty rest && c == 47 then [] else c ∷ rest

-- A filter is sent where it is given and not empty.
abbrev pub filter_param : {A : Type 0} → Text → (A → Text) → Option (List A) → List Param
filter_param name show none = []
filter_param name show (some []) = []
filter_param name show (some (x ∷ xs)) = (name, map show (x ∷ xs)) ∷ []

-- The filters of `get_users`; an identifier is written by `str`.
pub record Query (Key : Type 0) : Type 0 where
  pub equestrian_ids : Option (List Key)
  pub equestrian_service_keys : Option (List Text)
  pub role : Option (List Text)
  pub limit : ℕ
  pub offset : ℕ

unfoldable pub users_request : {Key : Type 0} → (Key → Text) → Text → Text → Query Key → Request
users_request show base_url service_key q = record {
  url = rstrip_slashes base_url ++ codes "/api/service/users";
  params =
      (codes "limit", decimal q.limit ∷ [])
      ∷ (codes "offset", decimal q.offset ∷ [])
      ∷ (filter_param (codes "equestrian_ids") show q.equestrian_ids
          ++ (filter_param (codes "equestrian_service_keys") (λ s. s) q.equestrian_service_keys
              ++ filter_param (codes "role") (λ s. s) q.role));
  headers =
      (codes "X-Service-Key", service_key) ∷ (codes "Content-Type", codes "application/json") ∷ [];
}

-- How a call of aiohttp, or the validation of what it has read, ends: `aiohttp.ClientError` with its
-- text, `TimeoutError`, or another exception.
pub data Answer (A : Type 0) : Type 0 where
  got : A → Answer A
  client_error : Text → Answer A
  timed_out other_error : Answer A

-- What the session gives: the status of a response, its text and its users.
pub record Response (Users : Type 0) : Type 0 where
  pub status : ℕ
  pub text : Answer Text
  pub users : Answer Users

pub data Outcome (Users : Type 0) : Type 0 where
  returned : Users → Outcome Users
  raised : ClientError → Outcome Users
  escaped : Outcome Users

-- The handlers of `except`.
abbrev pub settle : {A Users : Type 0} → (A → Outcome Users) → Answer A → Outcome Users
settle rest (got a) = rest a
settle rest (client_error e) =
    raised (connection_error (codes "Ошибка соединения с main backend: " ++ e))
settle rest timed_out =
    raised (timeout_error (codes "Превышено время ожидания ответа от main backend"))
settle rest other_error = escaped

abbrev pub of_status : ℕ → Text → ClientError
of_status status text = response_error status (codes "Ошибка получения пользователей: " ++ text)

unfoldable pub read_response : {Users : Type 0} → Response Users → Outcome Users
read_response r =
    if r.status == 200
    then settle returned r.users
    else settle (λ text. raised (of_status r.status text)) r.text

unfoldable pub get_users :
    {Key Users : Type 0}
    → (Key → Text)
    → Text
    → Text
    → Query Key
    → (Request → Answer (Response Users))
    → Outcome Users
unfolding read_response users_request
get_users show base_url service_key q send =
    settle read_response (send (users_request show base_url service_key q))
