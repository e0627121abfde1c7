-- ===== src/Auth/Bearer.antt =====
-- Which Authorization headers `authenticate` accepts.
use livepeer_gateway_console.Common.{
  ◌≡◌, ◌≢◌, ◌↔◌, refl, ap, Option, none, some, List, [], ◌∷◌, if◌then◌else◌, arith, Bool-cases, inl,
  inr,
}
use livepeer_gateway_console.Common.Text.{
  Text, codes, text_eq, text_eq→eq, text_eq_refl, trim, split_spaces, to_lower_case, utf8_encode,
}
use livepeer_gateway_console.Auth.{
  Checked, passed, thrown, AuthError, invalid_admin_token, one_token, check_scheme, parse_bearer,
  compare_tokens, after_parse, authenticate,
}

-- What an accepted header is: two words, the first "bearer" in any case, the second the token.
pub record IsBearer (header : Option Text) (token : Text) : Type 0 where
  pub value : Text
  pub present : header ≡ some value
  pub scheme : Text
  pub words : split_spaces (trim value) ≡ scheme ∷ token ∷ []
  pub is_bearer : to_lower_case scheme ≡ codes "bearer"
  pub not_empty : token ≢ []

one_token_sound :
    (parts : List Text) (t : Text) → one_token parts ≡ passed t → (parts ≡ t ∷ []) × (t ≢ [])
unfolding one_token
one_token_sound [] t h = absurd (cc)
one_token_sound ([] ∷ ps) t h = absurd (cc)
one_token_sound ((c ∷ s) ∷ []) t h = (ground arith, ground arith)
one_token_sound ((c ∷ s) ∷ p ∷ ps) t h = absurd (cc)

one_token_complete : (t : Text) → t ≢ [] → one_token (t ∷ []) ≡ passed t
unfolding one_token
one_token_complete [] h = absurd (h refl)
one_token_complete (c ∷ s) h = refl

check_scheme_sound :
    (parts : List Text) (t : Text)
    → check_scheme parts ≡ passed t
    → (scheme : Text) × (parts ≡ scheme ∷ t ∷ [])
      × (to_lower_case scheme ≡ codes "bearer")
      × (t ≢ [])
unfolding check_scheme
check_scheme_sound [] t h = absurd (cc)
check_scheme_sound (scheme ∷ parts) t h =
    elim (Bool-cases (text_eq (to_lower_case scheme) (codes "bearer"))) [
      | inl same ↦
          let (one, filled) = one_token_sound parts t (rw same at h) in
          (scheme, ap (λ ps. scheme ∷ ps) one, text_eq→eq _ _ same, filled)
      | inr other ↦ absurd (ground arith)
    ]

check_scheme_complete :
    (scheme t : Text)
    → to_lower_case scheme ≡ codes "bearer"
    → t ≢ []
    → check_scheme (scheme ∷ t ∷ []) ≡ passed t
unfolding check_scheme
check_scheme_complete scheme t same filled = rw same (one_token_complete t filled)

parse_bearer_sound :
    (header : Option Text) (t : Text) → parse_bearer header ≡ passed t → IsBearer header t
unfolding parse_bearer
parse_bearer_sound none t h = absurd (cc)
parse_bearer_sound (some []) t h = absurd (cc)
parse_bearer_sound (some (c ∷ s)) t h =
    let (scheme, words, same, filled) = check_scheme_sound (split_spaces (trim (c ∷ s))) t h in
    record {
      value = c ∷ s;
      present = refl;
      scheme = scheme;
      words = words;
      is_bearer = same;
      not_empty = filled;
    }

no_words : (scheme t : Text) → split_spaces (trim []) ≡ scheme ∷ t ∷ [] → ⊥
unfolding split_spaces trim
no_words scheme t h = cc

parse_bearer_value :
    (value scheme t : Text)
    → split_spaces (trim value) ≡ scheme ∷ t ∷ []
    → to_lower_case scheme ≡ codes "bearer"
    → t ≢ []
    → parse_bearer (some value) ≡ passed t
unfolding parse_bearer
parse_bearer_value [] scheme t words same filled = absurd (no_words scheme t words)
parse_bearer_value (c ∷ s) scheme t words same filled =
    rw words (check_scheme_complete scheme t same filled)

parse_bearer_complete :
    (header : Option Text) (t : Text) → IsBearer header t → parse_bearer header ≡ passed t
parse_bearer_complete header t b =
    rw b.present (parse_bearer_value b.value b.scheme t b.words b.is_bearer b.not_empty)

compare_tokens_lem :
    (admin_token provided : Text)
    → compare_tokens admin_token provided ≡ (
        if text_eq (utf8_encode provided) (utf8_encode admin_token)
        then passed (codes "ADMIN_TOKEN")
        else thrown invalid_admin_token)
compare_tokens_lem admin_token provided =
    elim (Bool-cases (text_eq (utf8_encode provided) (utf8_encode admin_token))) [
      | inl same ↦
          let e : utf8_encode provided ≡ utf8_encode admin_token = text_eq→eq _ _ same in
          unfold compare_tokens in rw e (ground (arith, text_eq_refl (utf8_encode admin_token)))
      | inr other ↦ unfold compare_tokens in rw other (ground arith)
    ]

after_parse_sound :
    (admin_token a : Text) (r : Checked AuthError Text)
    → after_parse admin_token r ≡ passed a
    → (token : Text) × (r ≡ passed token)
      × (utf8_encode token ≡ utf8_encode admin_token)
      × (a ≡ codes "ADMIN_TOKEN")
unfolding after_parse
after_parse_sound admin_token a (thrown e) h = absurd (cc)
after_parse_sound admin_token a (passed token) h =
    elim (Bool-cases (text_eq (utf8_encode token) (utf8_encode admin_token))) [
      | inl same ↦
          (token, refl, text_eq→eq _ _ same, ground (arith, compare_tokens_lem admin_token token))
      | inr other ↦ absurd (ground (arith, compare_tokens_lem admin_token token))
    ]

-- `authenticate` accepts exactly the headers of two words, the first "bearer" in any case and the
-- second with the bytes of the admin token. It then returns "ADMIN_TOKEN".
pub authenticate_iff :
    (admin_token : Text) (header : Option Text) (a : Text)
    → (authenticate admin_token header ≡ passed a) ↔ (
        (token : Text) × IsBearer header token
        × (utf8_encode token ≡ utf8_encode admin_token)
        × (a ≡ codes "ADMIN_TOKEN"))
authenticate_iff admin_token header a = (
  λ h.
      let (token, parsed, same, name) =
        after_parse_sound admin_token a (parse_bearer header) (unfold authenticate in h) in
      (token, parse_bearer_sound header token parsed, same, name),
  λ (token, bearer, same, name).
      unfold authenticate after_parse in
      rw (parse_bearer_complete header token bearer, compare_tokens_lem, same, text_eq_refl, name)
        refl,
)
