-- ===== src/Auth.antt =====
-- src/service/auth: the bearer token (authenticate.ts) and the operator's handle (actor.ts with
-- src/types/actor.ts).
pub mod Bearer
pub mod Actor
pub mod Examples
use livepeer_gateway_console.Common.{
  ℕ, Bool, true, false, not, ◌&&◌, ◌||◌, Option, none, some, List, [], ◌∷◌, length, ltb, leb, ◌==◌,
  if◌then◌else◌,
}
use livepeer_gateway_console.Common.Text.{
  Text, codes, text_eq, trim, split_spaces, to_lower_case, utf8_encode, utf16_length,
}

-- What `authenticate` throws.
pub data AuthError : Type 0 where
  malformed_authorization : Text → AuthError
  invalid_admin_token : AuthError

-- What `parseActor` throws; a handle that zod refuses carries the first issue.
pub data HandleIssue : Type 0 where
  too_big : ℕ → HandleIssue
  bad_format : Text → HandleIssue

pub data ActorError : Type 0 where
  missing_actor : ActorError
  malformed_actor : HandleIssue → ActorError

pub data Checked (E A : Type 0) : Type 0 where
  passed : A → Checked E A
  thrown : E → Checked E A

-- `if (!token || rest.length > 0)`, over the parts behind the scheme.
one_token : List Text → Checked AuthError Text
one_token ((c ∷ token) ∷ []) = passed (c ∷ token)
one_token _ = thrown (malformed_authorization (codes "expected exactly one token"))

check_scheme : List Text → Checked AuthError Text
unfolding one_token
check_scheme [] = thrown (malformed_authorization (codes "expected Bearer scheme"))
check_scheme (scheme ∷ parts) =
    if text_eq (to_lower_case scheme) (codes "bearer")
    then one_token parts
    else thrown (malformed_authorization (codes "expected Bearer scheme"))

parse_bearer : Option Text → Checked AuthError Text
parse_bearer none = thrown (malformed_authorization (codes "missing header"))
parse_bearer (some []) = thrown (malformed_authorization (codes "missing header"))
parse_bearer (some (c ∷ header)) = check_scheme (split_spaces (trim (c ∷ header)))

-- `timingSafeEqual` on buffers of one length: whether the bytes agree.
abbrev timing_safe_equal : List ℕ → List ℕ → Bool
timing_safe_equal = text_eq

compare_tokens : Text → Text → Checked AuthError Text
compare_tokens admin_token provided =
    let provided_buf = utf8_encode provided in
    let expected = utf8_encode admin_token in
    if not (length provided_buf == length expected) || not (timing_safe_equal provided_buf expected)
    then thrown invalid_admin_token
    else passed (codes "ADMIN_TOKEN")

after_parse : Text → Checked AuthError Text → Checked AuthError Text
after_parse admin_token (passed provided) = compare_tokens admin_token provided
after_parse admin_token (thrown e) = thrown e

-- `createAuthService({ adminToken }).authenticate(header)`
pub authenticate : Text → Option Text → Checked AuthError Text
authenticate admin_token header = after_parse admin_token (parse_bearer header)

-- A character of `[a-z0-9._-]`.
abbrev pub is_handle_code : ℕ → Bool
is_handle_code c =
    (leb b'a' c && leb c b'z')
    || (leb b'0' c && leb c b'9')
    || (c == b'.')
    || (c == b'_')
    || (c == b'-')

abbrev pub all_codes : (ℕ → Bool) → Text → Bool
all_codes p [] = true
all_codes p (c ∷ s) = p c && all_codes p s

handle_message : Text
handle_message = codes "Actor handle must be lower-case alphanumeric, dot, underscore, or hyphen."

-- `ActorHandleSchema.safeParse` on a text that is not empty.
check_handle : Text → Checked ActorError Text
check_handle s =
    if ltb 64 (utf16_length s)
    then thrown (malformed_actor (too_big 64))
    else if all_codes is_handle_code s
    then passed s
    else thrown (malformed_actor (bad_format handle_message))

check_trimmed : Text → Checked ActorError Text
unfolding check_handle
check_trimmed [] = thrown missing_actor
check_trimmed (c ∷ s) = check_handle (c ∷ s)

pub parse_actor : Option Text → Checked ActorError Text
unfolding check_trimmed
parse_actor none = thrown missing_actor
parse_actor (some header_value) = check_trimmed (trim header_value)
