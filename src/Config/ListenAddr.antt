-- ===== src/Config/ListenAddr.antt =====
-- `parseListenAddr` on addresses that were written down, and what it accepts.
use livepeer_gateway_console.Common.{
  ℕ, ◌≡◌, ◌≢◌, ◌≤◌, ◌<◌, refl, ap, true, false, ◌&&◌, Option, none, some, [], ◌∷◌, ◌++◌, All,
  All-mono, arith, leb, ◌==◌, Bool-cases, inl, inr, Option-cases,
}
use livepeer_gateway_console.Common.Int.{pos, negsuc}
use livepeer_gateway_console.Common.Text.{Text}
use livepeer_gateway_console.Common.Decimal.{to_decimal, is_digit_code, to_decimal-IsDecimal}
use livepeer_gateway_console.Common.Result.{ok, err, ok-injective}
use livepeer_gateway_console.Listing.{Coerced, integer, no_integer}
use livepeer_gateway_console.Config.{
  ListenConfig, split_last, not_host_port, not_port, check_port, check_parts, parse_listen_addr,
}

-- `Number` reads what is written in base 10, below 2 to the 53rd.
unfoldable pub ReadsDecimals : (Text → Coerced) → Type 0
ReadsDecimals number = (n : ℕ) → n < 9007199254740992 → number (to_decimal n) ≡ integer (pos n)

Avoids : ℕ → Text → Type 0
Avoids c s = All (λ d. (d == c) ≡ false) s

split_last-none : (c : ℕ) (s : Text) → Avoids c s → split_last c s ≡ none
unfolding split_last Avoids
split_last-none c [] h = refl
split_last-none c (x ∷ s) (p, h) = rw (split_last-none c s h, p) refl

split_last-append :
    (c : ℕ) (before after : Text)
    → Avoids c after
    → split_last c (before ++ c ∷ after) ≡ some (before, after)
unfolding split_last
split_last-append c [] after h =
    let self : (c == c) ≡ true = ground arith in rw (split_last-none c after h, self) refl
split_last-append c (x ∷ before) after h = rw (split_last-append c before after h) refl

split_last_sound :
    (c : ℕ) (s before after : Text)
    → split_last c s ≡ some (before, after)
    → s ≡ before ++ c ∷ after
unfolding split_last
split_last_sound c [] before after h = absurd (cc)
split_last_sound c (x ∷ s) before after h = elim (Option-cases (split_last c s)) [
  | inr ((b, a), found) ↦
      let got : some (x ∷ b, a) ≡ some (before, after) = rw found at h in
      let front : x ∷ b ≡ before = ground arith in
      let back : a ≡ after = ground arith in
      rw (← front, ← back) (ap (λ t. x ∷ t) (split_last_sound c s b a found))
  | inl missing ↦ elim (Bool-cases (x == c)) [
    | inl here ↦
        let got : some ([], s) ≡ some (before, after) = rw (missing, here) at h in ground arith
    | inr other ↦ let lost : none ≡ some (before, after) = rw (missing, other) at h in absurd (cc)
  ]
]

digits-Avoids : (n : ℕ) → Avoids b':' (to_decimal n)
unfolding Avoids
digits-Avoids n =
    All-mono (λ c. is_digit_code c ≡ true) (λ c. (c == b':') ≡ false) (λ c h. ground arith)
      (to_decimal n) (to_decimal-IsDecimal n).plain

-- A host that is not empty and a port from 1 to 65535, written with a colon between them, are read
-- back, whatever colons the host has.
pub listen_addr_roundtrip :
    (number : Text → Coerced) (host : Text) (port : ℕ)
    → ReadsDecimals number
    → host ≢ []
    → 1 ≤ port
    → port ≤ 65535
    → parse_listen_addr number (host ++ b':' ∷ to_decimal port)
      ≡ ok (record { host = host; port = port })
unfolding parse_listen_addr check_parts check_port ReadsDecimals
listen_addr_roundtrip number [] port reads nonempty low high = absurd (nonempty refl)
listen_addr_roundtrip number (c ∷ host) port reads nonempty low high =
    let read : number (to_decimal port) ≡ integer (pos port) = reads port (omega arith) in
    let small : leb 1 port ≡ true = ground arith in
    let large : leb port 65535 ≡ true = ground arith in
    rw
      (split_last-append b':' (c ∷ host) (to_decimal port) (digits-Avoids port), read, small, large)
      refl

check_port_sound :
    (value host : Text) (n : Coerced) (c : ListenConfig)
    → check_port value host n ≡ ok c
    → (c.host ≡ host) × (n ≡ integer (pos c.port)) × (1 ≤ c.port) × (c.port ≤ 65535)
unfolding check_port not_port
check_port_sound value host no_integer c h = absurd (cc)
check_port_sound value host (integer (negsuc n)) c h = absurd (cc)
check_port_sound value host (integer (pos n)) c h = elim (Bool-cases (leb 1 n && leb n 65535)) [
  | inl fits ↦
      let got : ok (record { host = host; port = n }) ≡ ok c = rw fits at h in
      let same : record { host = host; port = n } ≡ c = ok-injective _ c got in
      rw (← same) (refl, refl, ground arith, ground arith)
  | inr unfit ↦ let refused : err (not_port value) ≡ ok c = rw unfit at h in absurd (cc)
]

check_parts_sound :
    (number : Text → Coerced) (value : Text) (o : Option (Text × Text)) (c : ListenConfig)
    → check_parts number value o ≡ ok c
    → (after : Text) × (o ≡ some (c.host, after))
      × (number after ≡ integer (pos c.port))
      × (c.host ≢ [])
      × (1 ≤ c.port)
      × (c.port ≤ 65535)
unfolding check_parts not_host_port
check_parts_sound number value none c h = absurd (cc)
check_parts_sound number value (some ([], rest)) c h = absurd (cc)
check_parts_sound number value (some (x ∷ host, rest)) c h =
    let (own, read, low, high) = check_port_sound value (x ∷ host) (number rest) c h in
    (rest, rw own refl, read, λ e. absurd (ground (arith, own)), low, high)

-- An address that is accepted is a host that is not empty, a colon and a text that `Number` reads as
-- the port, and the port is from 1 to 65535.
pub listen_addr_sound :
    (number : Text → Coerced) (value : Text) (c : ListenConfig)
    → parse_listen_addr number value ≡ ok c
    → (after : Text) × (value ≡ c.host ++ b':' ∷ after)
      × (number after ≡ integer (pos c.port))
      × (c.host ≢ [])
      × (1 ≤ c.port)
      × (c.port ≤ 65535)
unfolding parse_listen_addr
listen_addr_sound number value c h =
    let (after, found, read, host, low, high) =
      check_parts_sound number value (split_last b':' value) c h in
    (after, split_last_sound b':' value c.host after found, read, host, low, high)
