-- ===== src/Security/Ticket.antt =====
-- The tickets that open an administrator's socket (`verifyAdminSocketTicket` of
-- `src/worker/security.ts`): an expiry in milliseconds, a nonce and a signature, with full stops
-- between them.
pub mod RoundTrip
use Prim.Native.Char.{Char, code}
use Prim.Native.String.{◌++◌}
use task_hub.Shared.{
  ◌≡◌, refl, ◌↔◌, ℕ, zero, suc, ◌/◌, ◌%◌, ◌+◌, ◌-◌, ◌*◌, ◌≤◌, Bool, true, false, not, ◌&&◌, ◌||◌,
  List, [], ◌∷◌, String, arith, leb, ltb, nat_eq, if◌then◌else◌,
}
use task_hub.Shared.Text.{is_empty, code_units, split_on, hex_digit}
use task_hub.Types.{Instant}
use task_hub.Platform.{Platform}
use task_hub.Security.{hmac_hex, constant_time_string_equal}
use task_hub.Security.Compare.{constant_time_string_equal_iff}

-- `text.split(".")`
abbrev pub split_stops : String → List String
split_stops = split_on 46

abbrev pub only_digits : String → Bool
only_digits String.[] = true
only_digits (String.◌∷◌ c s) = leb 48 (code c) && leb (code c) 57 && only_digits s

-- `/^\d+$/`
abbrev pub is_number : String → Bool
is_number s = not (is_empty s) && only_digits s

-- `Number(text)` of digits, by the value of those before. It is exact up to the safe integers, and
-- what is larger is refused.
pub number_after : ℕ → String → ℕ
number_after n String.[] = n
number_after n (String.◌∷◌ c s) = number_after (n * 10 + (code c - 48)) s

abbrev pub max_safe_integer : ℕ
max_safe_integer = 9007199254740991

-- The decimal text of a number, with fuel for its digits.
pub decimal_digits : (fuel n : ℕ) → String
decimal_digits zero n = hex_digit n
decimal_digits (suc fuel) n =
    let rest = decimal_digits fuel (n / 10) in
    if ltb n 10 then hex_digit n else rest ++ hex_digit (n % 10)

pub decimal : ℕ → String
unfolding decimal_digits
decimal n = decimal_digits n n

-- What `createAdminSocketTicket` resolves to.
pub record AdminTicket : Type 0 where
  pub ticket : String
  pub expires_at : String

module _ (platform : Platform) (secret : String) where
  pub create_admin_socket_ticket : (now : Instant) (nonce : String) → AdminTicket
  unfolding decimal
  create_admin_socket_ticket now nonce =
      let payload = decimal (now + 60000) ++ ("." ++ nonce) in
      record {
        ticket = payload ++ ("." ++ hmac_hex platform secret payload);
        expires_at = platform.to_iso (now + 60000);
      }

module _ (platform : Platform) (secret : String) (now : Instant) where
  -- The tests on the three parts of a ticket.
  pub verify_parts : (expiry nonce signature : String) → Bool
  unfolding number_after
  verify_parts expiry nonce signature =
      if not (is_number expiry) || is_empty nonce
      then false
      else if not (leb (number_after 0 expiry) max_safe_integer) || ltb (number_after 0 expiry) now
      then false
      else constant_time_string_equal (hmac_hex platform secret (expiry ++ ("." ++ nonce)))
          signature

  pub verify_split : List String → Bool
  unfolding verify_parts
  verify_split (expiry ∷ nonce ∷ signature ∷ []) = verify_parts expiry nonce signature
  verify_split _ = false

  unfoldable pub verify_admin_socket_ticket : String → Bool
  unfolding verify_split
  verify_admin_socket_ticket ticket = verify_split (split_stops ticket)

  -- What the parts of a good ticket are: the signature is the secret's over the expiry and the
  -- nonce, the nonce is there, and the expiry is a safe integer that is not over.
  pub record IsSigned (expiry nonce signature : String) : Type 0 where
    pub number : is_number expiry ≡ true
    pub has_nonce : is_empty nonce ≡ false
    pub safe : number_after 0 expiry ≤ max_safe_integer
    pub fresh : now ≤ number_after 0 expiry
    pub signed :
        code_units (hmac_hex platform secret (expiry ++ ("." ++ nonce))) ≡ code_units signature

  verify_parts_iff :
      (expiry nonce signature : String)
      → (verify_parts expiry nonce signature ≡ true) ↔ IsSigned expiry nonce signature
  unfolding verify_parts
  verify_parts_iff expiry nonce signature =
      let same =
        constant_time_string_equal_iff (hmac_hex platform secret (expiry ++ ("." ++ nonce)))
          signature in
      (
        λ e. record {
          number = ground (arith, e);
          has_nonce = ground (arith, e);
          safe = ground (arith, e);
          fresh = ground (arith, e);
          signed = same.0 (ground (arith, e));
        },
        λ h. ground (arith, h.number, h.has_nonce, h.safe, h.fresh, same.1 h.signed),
      )

  -- A ticket is accepted exactly when it has three parts, the last is the signature of the first
  -- two under the secret, the nonce is not empty, and the expiry is a safe integer which has not
  -- passed.
  pub verify_admin_socket_ticket_iff :
      (ticket : String)
      → (verify_admin_socket_ticket ticket ≡ true) ↔ (
          (expiry : String) × (nonce : String) × (signature : String) × (split_stops ticket
            ≡ expiry ∷ nonce ∷ signature ∷ [])
          × IsSigned expiry nonce signature)
  unfolding verify_admin_socket_ticket verify_split
  verify_admin_socket_ticket_iff ticket = (
    verify_split-parts (split_stops ticket),
    λ (expiry, nonce, signature, e, h). rw e ((verify_parts_iff expiry nonce signature).1 h),
  )
    where
      verify_split-parts :
          (parts : List String)
          → verify_split parts ≡ true
          → (expiry : String) × (nonce : String) × (signature : String) × (parts
              ≡ expiry ∷ nonce ∷ signature ∷ [])
            × IsSigned expiry nonce signature
      verify_split-parts (expiry ∷ nonce ∷ signature ∷ []) h =
          (expiry, nonce, signature, refl, (verify_parts_iff expiry nonce signature).0 h)
      verify_split-parts [] h = absurd (ground (arith, h))
      verify_split-parts (a ∷ []) h = absurd (ground (arith, h))
      verify_split-parts (a ∷ b ∷ []) h = absurd (ground (arith, h))
      verify_split-parts (a ∷ b ∷ c ∷ d ∷ rest) h = absurd (ground (arith, h))
