-- ===== src/Auth/Examples.antt =====
-- Tokens and handles, accepted and refused.
use livepeer_gateway_console.Common.{◌≡◌, ◌↔◌, refl, some}
use livepeer_gateway_console.Common.Text.{
  Text, codes, trim, trim_start, is_space, split_loop, split_spaces, to_lower_case, lower_code,
  utf8_code, utf8_encode, utf16_length,
}
use livepeer_gateway_console.Auth.{
  passed, thrown, invalid_admin_token, malformed_authorization, authenticate, after_parse,
  parse_bearer, check_scheme, one_token, compare_tokens, parse_actor, check_trimmed, check_handle,
}
use livepeer_gateway_console.Auth.Bearer.{IsBearer, authenticate_iff}

abbrev pub admin_token : Text
admin_token = codes "secret"

pub wrong_token :
    authenticate admin_token (some (codes "bearer secreT")) ≡ thrown invalid_admin_token
unfolding authenticate after_parse parse_bearer check_scheme one_token compare_tokens split_spaces
    split_loop trim trim_start is_space to_lower_case lower_code utf8_encode utf8_code
wrong_token = refl

pub right_token :
    authenticate admin_token (some (codes "Bearer secret")) ≡ passed (codes "ADMIN_TOKEN")
unfolding authenticate after_parse parse_bearer check_scheme one_token compare_tokens split_spaces
    split_loop trim trim_start is_space to_lower_case lower_code utf8_encode utf8_code
right_token = refl

spaced_token :
    authenticate admin_token (some (codes " Bearer\tsecret")) ≡ passed (codes "ADMIN_TOKEN")
unfolding authenticate after_parse parse_bearer check_scheme one_token compare_tokens split_spaces
    split_loop trim trim_start is_space to_lower_case lower_code utf8_encode utf8_code
spaced_token = refl

two_tokens :
    authenticate admin_token (some (codes "Bearer secret x"))
    ≡ thrown (malformed_authorization (codes "expected exactly one token"))
unfolding authenticate after_parse parse_bearer check_scheme one_token split_spaces split_loop trim
    trim_start is_space to_lower_case lower_code
two_tokens = refl

pub trimmed_handle : parse_actor (some (codes " alice ")) ≡ passed (codes "alice")
unfolding parse_actor check_trimmed check_handle trim trim_start is_space utf16_length
trimmed_handle = refl

authenticate_iff_example :
    (authenticate admin_token (some (codes "Bearer secret")) ≡ passed (codes "ADMIN_TOKEN")) ↔ (
      (token : Text) × IsBearer (some (codes "Bearer secret")) token
      × (utf8_encode token ≡ utf8_encode admin_token)
      × (codes "ADMIN_TOKEN" ≡ codes "ADMIN_TOKEN"))
authenticate_iff_example =
    authenticate_iff admin_token (some (codes "Bearer secret")) (codes "ADMIN_TOKEN")
