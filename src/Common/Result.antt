-- ===== src/Common/Result.antt =====
-- A promise that settles, or a call that returns or throws: a value, or the thrown value.
use Prim.Native.Nat.{ℕ}
use mathlib.Core.Path.{◌≡◌, refl}
use livepeer_gateway_console.Common.Text.{Text}

-- What the code throws or rejects with: an `Error` with its message, a gRPC `ServiceError`, which
-- is an `Error` with a status code, or a value that is no `Error`, with its text under `String`.
pub data Failure : Type 0 where
  error : Text → Failure
  service_error : ℕ → Text → Failure
  other : Text → Failure

-- `err instanceof Error ? err.message : String(err)`
unfoldable pub message_of : Failure → Text
message_of (error message) = message
message_of (service_error code message) = message
message_of (other text) = text

pub data Result {ℓ} (A : Type ℓ) : Type ℓ where
  ok : A → Result A
  err : Failure → Result A

module _ {ℓ κ} {A : Type ℓ} {B : Type κ} where
  infixl 5 ◌>>=◌
  -- `await`, and what stands behind it.
  abbrev pub ◌>>=◌ : Result A → (A → Result B) → Result B
  err failure >>= rest = err failure
  ok value >>= rest = rest value

  -- What is returned was returned by the rest, from what the first call returned.
  pub bind_ok :
      (call : Result A) (rest : A → Result B) {returned : B}
      → (call >>= rest) ≡ ok returned
      → (value : A) × (call ≡ ok value) × (rest value ≡ ok returned)
  bind_ok (err failure) rest h = cc
  bind_ok (ok value) rest h = (value, refl, h)

pub ok-injective {ℓ} : {A : Type ℓ} (a b : A) → ok a ≡ ok b → a ≡ b
ok-injective a b h = cc
