-- ===== src/Chain/Examples.antt =====
-- Pools of a chain: two entries, one entry that is its own next, and a long one.
use livepeer_gateway_console.Common.{
  ℕ, zero, suc, ap, ◌≡◌, ◌≤◌, ◌↔◌, refl, List, [], ◌∷◌, length, if◌then◌else◌,
}
use livepeer_gateway_console.Common.Text.{Text, codes, text_eq, to_lower_case, lower_code}
use livepeer_gateway_console.Common.Result.{ok}
use livepeer_gateway_console.Chain.{
  BondingManager, BondingPoolEntry, pool_entry, zero_address, walk, bonding_manager_list_pool,
  pool_walk_safety_limit,
}
use livepeer_gateway_console.Chain.PoolWalk.{LinkedFrom, done, link, list_pool_iff}

abbrev pub pair : BondingManager
pair = record {
  first_transcoder = ok (codes "0xAb");
  next_transcoder = λ a. if text_eq a (codes "0xAb") then ok (codes "0xb") else ok zero_address;
  delegated_amount = λ a. ok 25;
}

abbrev pub two : List BondingPoolEntry
two = pool_entry (codes "0xAb") 25 ∷ pool_entry (codes "0xb") 25 ∷ []

pub lists_two : bonding_manager_list_pool pair ≡ ok two
unfolding bonding_manager_list_pool walk to_lower_case lower_code
lists_two = refl

list_pool_iff_example : (bonding_manager_list_pool pair ≡ ok two) ↔ (
    (addr : Text) × (pair.first_transcoder ≡ ok addr)
    × LinkedFrom pair addr two
    × (length two ≤ pool_walk_safety_limit))
list_pool_iff_example = list_pool_iff pair two

-- Addresses of `n` letters, each followed by the one with a letter less.
letters : ℕ → Text
letters zero = []
letters (suc n) = b'x' ∷ letters n

abbrev shorter : Text → Text
shorter [] = zero_address
shorter (c ∷ s) = s

abbrev countdown : BondingManager
countdown = record {
  first_transcoder = ok (letters 1000);
  next_transcoder = λ a. ok (shorter a);
  delegated_amount = λ a. ok 1;
}

counted : ℕ → List BondingPoolEntry
counted zero = pool_entry [] 1 ∷ []
counted (suc n) = pool_entry (b'x' ∷ letters n) 1 ∷ counted n

counted-LinkedFrom : (n : ℕ) → LinkedFrom countdown (letters n) (counted n)
unfolding letters counted to_lower_case lower_code
counted-LinkedFrom zero = link [] 1 zero_address refl refl refl (done zero_address refl)
counted-LinkedFrom (suc n) =
    link (b'x' ∷ letters n) 1 (letters n) refl refl refl (counted-LinkedFrom n)

length-counted : (n : ℕ) → length (counted n) ≡ suc n
unfolding counted
length-counted zero = refl
length-counted (suc n) = ap suc (length-counted n)
