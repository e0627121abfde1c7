-- ===== src/Admin/Payload.antt =====
-- The payloads of src/admin-ui, as src/runtime/http sends them and api-base.js and the screens read
-- them.
use livepeer_gateway_console.Common.{ℕ, Option, none, some}
use livepeer_gateway_console.Common.Text.{Text, codes}
use livepeer_gateway_console.Admin.Api.{ErrorField, no_error, Response}

-- The payload of a response: a view, or one that has something under `error`, with its `code` where
-- that is an object that has one.
pub data Payload (A : Type 0) : Type 0 where
  view : A → Payload A
  error : (code : Option Text) (field : ErrorField) → Payload A

module _ {A : Type 0} where
  unfoldable pub error_field : Payload A → ErrorField
  error_field (view a) = no_error
  error_field (error code field) = field

  -- `err.body.error?.code`
  unfoldable pub code_of : Option (Payload A) → Option Text
  code_of none = none
  code_of (some (view a)) = none
  code_of (some (error code field)) = code

  -- What Fastify makes of an object.
  unfoldable pub json_response : ℕ → Payload A → Response (Payload A)
  json_response status p = record {
    status = status;
    content_type = some (codes "application/json; charset=utf-8");
    json = some p;
  }
