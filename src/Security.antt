-- ===== src/Security.antt =====
-- security.ts: the hash of a runner's credential, and the comparison that takes the same time
-- whatever the texts are.
pub mod Compare
pub mod Ticket
use Prim.Native.Nat.{bit_or, bit_xor}
use Prim.Native.String.{◌++◌}
use task_hub.Shared.{
  ℕ, zero, suc, ◌+◌, ◌/◌, ◌%◌, Bool, List, [], ◌∷◌, String, max, length, ltb, nat_eq, if◌then◌else◌,
}
use task_hub.Shared.Text.{code_units, hex_digit}
use task_hub.Platform.{Platform}

-- `text.charCodeAt(index) || 0`: NaN past the end counts as 0.
abbrev pub unit_at : List ℕ → ℕ → ℕ
unit_at [] index = 0
unit_at (unit ∷ units) zero = unit
unit_at (unit ∷ units) (suc index) = unit_at units index

-- The loop, from `index` on; `rounds` is `length - index`.
unfoldable pub accumulate : List ℕ → List ℕ → (rounds index difference : ℕ) → ℕ
accumulate actual expected zero index difference = difference
accumulate actual expected (suc rounds) index difference =
    accumulate actual expected rounds (suc index)
      (bit_or difference (bit_xor (unit_at actual index) (unit_at expected index)))

unfoldable pub equal_units : List ℕ → List ℕ → Bool
unfolding accumulate
equal_units actual expected =
    nat_eq
      (accumulate actual expected (max (length actual) (length expected)) 0
        (bit_xor (length actual) (length expected)))
      0

unfoldable pub constant_time_string_equal : String → String → Bool
unfolding equal_units
constant_time_string_equal actual expected = equal_units (code_units actual) (code_units expected)

-- `byte.toString(16).padStart(2, "0")`, joined.
unfoldable pub bytes_to_hex : List ℕ → String
bytes_to_hex [] = ""
bytes_to_hex (byte ∷ bytes) = hex_digit (byte / 16) ++ (hex_digit (byte % 16) ++ bytes_to_hex bytes)

module _ (platform : Platform) where
  unfoldable pub hash_runner_credential : String → String
  unfolding bytes_to_hex
  hash_runner_credential value = bytes_to_hex (platform.sha256 value)

  unfoldable pub verify_runner_credential : String → String → Bool
  unfolding hash_runner_credential constant_time_string_equal
  verify_runner_credential value expected_hash =
      constant_time_string_equal (hash_runner_credential value) expected_hash

  unfoldable pub hmac_hex : String → String → String
  unfolding bytes_to_hex
  hmac_hex secret value = bytes_to_hex (platform.hmac_sha256 secret value)
