-- ===== src/Admin/Api/Outcomes.antt =====
-- How a request of the browser client settles, by the response.
use livepeer_gateway_console.Common.{
  ◌≡◌, ◌≢◌, ◌≤◌, ◌<◌, ◌⊎◌, inl, inr, refl, ◌&&◌, Option, arith, Bool-cases, ltb, leb, ◌==◌,
}
use livepeer_gateway_console.Common.Result.{Failure}
use livepeer_gateway_console.Admin.Api.{
  Browser, on_unauthorized, Response, Fetched, unreachable, response, network_error, unauthorized,
  http_error, ApiError, Settled, value, failed, ErrorField, check_status, check_response,
  after_fetch,
}

-- What a settled request says of the response: a value for a status from 200 to 299, no payload for
-- 204, an error with the code and status of the response otherwise.
pub data Answers {B : Type 0} : Fetched B → Settled B → Type 0 where
  succeeded :
      {r : Response B} {payload : Option B}
      → 200 ≤ r.status
      → r.status < 300
      → Answers (response r) (value payload)
  refused :
      {r : Response B} {e : ApiError B}
      → (r.status < 200) ⊎ (300 ≤ r.status)
      → r.status ≢ 401
      → e.status ≡ r.status
      → e.code ≡ http_error
      → Answers (response r) (failed e)
  rejected :
      {r : Response B} {e : ApiError B}
      → r.status ≡ 401
      → e.status ≡ 401
      → e.code ≡ unauthorized
      → Answers (response r) (failed e)
  lost :
      {f : Failure} {e : ApiError B}
      → e.status ≡ 0
      → e.code ≡ network_error
      → Answers (unreachable f) (failed e)

-- The server has refused the token.
unfoldable pub IsRefusal : {B : Type 0} → Fetched B → Type 0
IsRefusal (unreachable e) = ⊥
IsRefusal (response r) = r.status ≡ 401

module _ {B : Type 0} (error_field : B → ErrorField) where
  check_status-Answers :
      (r : Response B) (payload : Option B)
      → r.status ≢ 401
      → Answers (response r) (check_status error_field r.status payload)
  unfolding check_status
  check_status-Answers r payload not_401 =
      elim (Bool-cases (leb 200 r.status && ltb r.status 300)) [
        | inl fine ↦ rw fine (Answers.succeeded (ground arith) (ground arith))
        | inr bad ↦ rw bad (Answers.refused (ground arith) not_401 refl refl)
      ]

  -- A request settles as its response says: with a value for a status from 200 to 299, else with an
  -- error that has the response's status, or 0 where there was no response. It signs the tab out, which
  -- loses its session, on the status 401, and on every other outcome leaves the tab as it was.
  pub after_fetch-Answers :
      (b : Browser) (f : Fetched B)
      → Answers f (after_fetch error_field b f).1
        × ((IsRefusal f × ((after_fetch error_field b f).0 ≡ on_unauthorized b))
            ⊎ ((IsRefusal f → ⊥) × ((after_fetch error_field b f).0 ≡ b)))
  unfolding after_fetch check_response IsRefusal
  after_fetch-Answers b (unreachable e) = (Answers.lost refl refl, inr (λ h. h, refl))
  after_fetch-Answers b (response r) = elim (Bool-cases (r.status == 401)) [
    | inl out ↦
        let status : r.status ≡ 401 = ground arith in
        rw out (Answers.rejected status refl refl, inl (status, refl))
    | inr other ↦
        let not_401 : r.status ≢ 401 = ground arith in
        elim (Bool-cases (r.status == 204)) [
          | inl quiet ↦
              rw (other, quiet)
                (Answers.succeeded (ground arith) (ground arith), inr (not_401, refl))
          | inr loud ↦ rw (other, loud) (check_status-Answers r _ not_401, inr (not_401, refl))
        ]
  ]
