-- ===== src/Auth/Actor.antt =====
-- Which handles `parseActor` accepts.
use livepeer_gateway_console.Common.{
  ℕ, ◌≤◌, ◌<◌, ◌≡◌, ◌↔◌, refl, true, Option, none, some, [], ◌∷◌, length, arith,
}
use livepeer_gateway_console.Common.Text.{Text, trim, utf16_length}
use livepeer_gateway_console.Auth.{passed, is_handle_code, all_codes, check_trimmed, parse_actor}

-- A handle: one to 64 of the characters a-z, 0-9, dot, underscore and hyphen.
pub record IsHandle (s : Text) : Type 0 where
  pub not_empty : 1 ≤ length s
  pub short : length s ≤ 64
  pub plain : all_codes is_handle_code s ≡ true

handle_code_small : (c : ℕ) → is_handle_code c ≡ true → c < 128
handle_code_small c h = ground arith

utf16_length_of_plain : (s : Text) → all_codes is_handle_code s ≡ true → utf16_length s ≡ length s
unfolding utf16_length
utf16_length_of_plain [] h = refl
utf16_length_of_plain (c ∷ s) h = ground (arith, utf16_length_of_plain s, handle_code_small c)

check_trimmed_sound : (t a : Text) → check_trimmed t ≡ passed a → (a ≡ t) × IsHandle t
unfolding check_trimmed
check_trimmed_sound [] a h = absurd (cc)
check_trimmed_sound (c ∷ s) a h = (
  ground arith,
  record {
    not_empty = omega arith;
    short = ground (arith, utf16_length_of_plain (c ∷ s));
    plain = ground arith;
  },
)

check_trimmed_complete : (t : Text) → IsHandle t → check_trimmed t ≡ passed t
unfolding check_trimmed
check_trimmed_complete [] h = absurd (omega (arith, h.not_empty))
check_trimmed_complete (c ∷ s) h = ground (arith, utf16_length_of_plain (c ∷ s))

parse_actor_sound :
    (header : Option Text) (actor : Text)
    → parse_actor header ≡ passed actor
    → (value : Text) × (header ≡ some value) × (actor ≡ trim value) × IsHandle (trim value)
unfolding parse_actor
parse_actor_sound none actor h = absurd (cc)
parse_actor_sound (some value) actor h =
    let (same, handle) = check_trimmed_sound (trim value) actor h in (value, refl, same, handle)

-- `parseActor` accepts exactly the headers whose text without its surrounding white space is a
-- handle, and returns that handle.
pub parse_actor_iff :
    (header : Option Text) (actor : Text)
    → (parse_actor header ≡ passed actor)
      ↔ ((value : Text) × (header ≡ some value) × (actor ≡ trim value) × IsHandle (trim value))
parse_actor_iff header actor = (
  parse_actor_sound header actor,
  λ (value, given, same, handle).
      rw (given, same) (unfold parse_actor in check_trimmed_complete (trim value) handle),
)
