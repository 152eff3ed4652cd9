-- ===== src/Security/Ticket/RoundTrip.antt =====
-- The making of a ticket beside its verification (`createAdminSocketTicket` and
-- `verifyAdminSocketTicket` of `src/worker/security.ts`).
use Prim.Native.Char.{code}
use Prim.Native.Nat.{ℕ, zero, suc, ◌+◌, ◌-◌, ◌*◌, ◌/◌, ◌%◌, ◌≤◌, ◌<◌}
use Prim.Native.String.{◌++◌}
use text.Mathlib.TextLemmas.{nil-append, cons-append, append_assoc}
use task_hub.Shared.{
  ◌≡◌, ◌↔◌, refl, ap, ◌∙◌, inl, inr, Bool, Bool-cases, true, false, List, [], ◌∷◌, String, arith,
  ltb, nat_eq, if◌then◌else◌,
}
use task_hub.Shared.Text.Split.{lacks, split_on-append}
use task_hub.Shared.Text.{split_on, is_empty, hex_digit}
use task_hub.Types.{Instant}
use task_hub.Platform.{Platform}
use task_hub.Security.{hmac_hex, bytes_to_hex}
use task_hub.Security.Ticket.{
  split_stops, decimal_digits, decimal, create_admin_socket_ticket, only_digits, number_after,
  max_safe_integer, verify_admin_socket_ticket, verify_admin_socket_ticket_iff,
}

unfoldable pub no_stop : String → Bool
unfolding lacks
no_stop s = lacks 46 s

number_after-append :
    (n : ℕ) (s t : String) → number_after n (s ++ t) ≡ number_after (number_after n s) t
unfolding number_after
number_after-append n String.[] t = rw (nil-append t) refl
number_after-append n (String.◌∷◌ c s) t =
    rw (cons-append c s t) (number_after-append (n * 10 + (code c - 48)) s t)

only_digits-append :
    (s t : String) → only_digits s ≡ true → only_digits t ≡ true → only_digits (s ++ t) ≡ true
only_digits-append String.[] t h k = rw (nil-append t) k
only_digits-append (String.◌∷◌ c s) t h k =
    rw (cons-append c s t) (ground (arith, h, only_digits-append s t (ground (arith, h)) k))

no_stop-append : (s t : String) → no_stop s ≡ true → no_stop t ≡ true → no_stop (s ++ t) ≡ true
unfolding no_stop lacks
no_stop-append String.[] t h k = rw (nil-append t) k
no_stop-append (String.◌∷◌ c s) t h k =
    rw (cons-append c s t) (ground (arith, h, no_stop-append s t (ground (arith, h)) k))

no_stop-only_digits : (s : String) → only_digits s ≡ true → no_stop s ≡ true
unfolding no_stop lacks
no_stop-only_digits String.[] h = refl
no_stop-only_digits (String.◌∷◌ c s) h =
    ground (arith, h, no_stop-only_digits s (ground (arith, h)))

split_stops-no_stop : (s : String) → no_stop s ≡ true → split_stops s ≡ s ∷ []
unfolding no_stop lacks split_on
split_stops-no_stop String.[] h = refl
split_stops-no_stop (String.◌∷◌ c s) h =
    let e : nat_eq (code c) 46 ≡ false = ground (arith, h) in
    rw (e, split_stops-no_stop s (ground (arith, h))) refl

split_stops-append :
    (s t : String) → no_stop s ≡ true → split_stops (s ++ ("." ++ t)) ≡ s ∷ split_stops t
unfolding no_stop lacks
split_stops-append s t h = split_on-append "." s t h

-- A digit below ten.
number_after-digit :
    (n d : ℕ)
    → d < 10
    → (number_after n (hex_digit d) ≡ n * 10 + d) × (only_digits (hex_digit d) ≡ true)
unfolding number_after
number_after-digit n zero h = (refl, refl)
number_after-digit n (suc zero) h = (refl, refl)
number_after-digit n (suc (suc zero)) h = (refl, refl)
number_after-digit n (suc (suc (suc zero))) h = (refl, refl)
number_after-digit n (suc (suc (suc (suc zero)))) h = (refl, refl)
number_after-digit n (suc (suc (suc (suc (suc zero))))) h = (refl, refl)
number_after-digit n (suc (suc (suc (suc (suc (suc zero)))))) h = (refl, refl)
number_after-digit n (suc (suc (suc (suc (suc (suc (suc zero))))))) h = (refl, refl)
number_after-digit n (suc (suc (suc (suc (suc (suc (suc (suc zero)))))))) h = (refl, refl)
number_after-digit n (suc (suc (suc (suc (suc (suc (suc (suc (suc zero))))))))) h = (refl, refl)
number_after-digit n (suc (suc (suc (suc (suc (suc (suc (suc (suc (suc d)))))))))) h =
    absurd (omega arith)

-- The decimal text reads back as the number, and has digits only.
number_after-decimal_digits :
    (fuel n : ℕ)
    → n ≤ fuel
    → (number_after 0 (decimal_digits fuel n) ≡ n) × (only_digits (decimal_digits fuel n) ≡ true)
unfolding decimal_digits
number_after-decimal_digits zero n h =
    let d = number_after-digit 0 n (omega arith) in (d.0 ∙ omega arith, d.1)
number_after-decimal_digits (suc fuel) n h = elim (Bool-cases (ltb n 10)) [
  | inl e ↦ let d = number_after-digit 0 n (ground (arith, e)) in rw e (d.0 ∙ omega arith, d.1)
  | inr e ↦
      let deep = number_after-decimal_digits fuel (n / 10) (ground (arith, e, h)) in
      let last = number_after-digit (n / 10) (n % 10) (omega arith) in
      rw e (
        (
          number_after-append 0 (decimal_digits fuel (n / 10)) (hex_digit (n % 10))
              ∙ (ap (λ m. number_after m (hex_digit (n % 10))) deep.0 ∙ (last.0 ∙ omega arith)),
          only_digits-append (decimal_digits fuel (n / 10)) (hex_digit (n % 10)) deep.1 last.1,
        ))
]

no_stop-if :
    (b : Bool) (s t : String)
    → no_stop s ≡ true
    → no_stop t ≡ true
    → no_stop (if b then s else t) ≡ true
no_stop-if true s t h k = h
no_stop-if false s t h k = k

decimal_lem : (n : ℕ) → (number_after 0 (decimal n) ≡ n) × (only_digits (decimal n) ≡ true)
unfolding decimal
decimal_lem n = number_after-decimal_digits n n (omega arith)

number_after_empty : (s : String) → is_empty s ≡ true → number_after 0 s ≡ 0
unfolding number_after
number_after_empty String.[] h = refl
number_after_empty (String.◌∷◌ c s) h = cc

decimal_given : (n : ℕ) → 0 < n → is_empty (decimal n) ≡ false
decimal_given n h = elim (Bool-cases (is_empty (decimal n))) [
  | inl e ↦ absurd (omega (arith, number_after_empty (decimal n) e, (decimal_lem n).0))
  | inr e ↦ e
]

no_stop-hex_digit : (d : ℕ) → no_stop (hex_digit d) ≡ true
unfolding no_stop lacks
no_stop-hex_digit d = search no_stop-if depth 40

no_stop-bytes_to_hex : (bytes : List ℕ) → no_stop (bytes_to_hex bytes) ≡ true
unfolding no_stop lacks bytes_to_hex
no_stop-bytes_to_hex [] = refl
no_stop-bytes_to_hex (b ∷ bs) =
    no_stop-append (hex_digit (b / 16)) (hex_digit (b % 16) ++ bytes_to_hex bs)
      (no_stop-hex_digit (b / 16))
      (no_stop-append (hex_digit (b % 16)) (bytes_to_hex bs) (no_stop-hex_digit (b % 16))
        (no_stop-bytes_to_hex bs))

module _ (platform : Platform) (secret : String) where
  split_stops-create :
      (now : Instant) (nonce : String)
      → no_stop nonce ≡ true
      → split_stops (create_admin_socket_ticket platform secret now nonce).ticket
        ≡ decimal (now + 60000)
          ∷ nonce
          ∷ hmac_hex platform secret (decimal (now + 60000) ++ ("." ++ nonce))
          ∷ []
  unfolding create_admin_socket_ticket hmac_hex
  split_stops-create now nonce h =
      let expiry = decimal (now + 60000) in
      let signature = hmac_hex platform secret (expiry ++ ("." ++ nonce)) in
      rw (append_assoc expiry ("." ++ nonce) ("." ++ signature)) (
        rw (append_assoc "." nonce ("." ++ signature)) (
          split_stops-append expiry (nonce ++ ("." ++ signature))
            (no_stop-only_digits expiry (decimal_lem (now + 60000)).1)
          ∙ ap (◌∷◌ expiry) (
              split_stops-append nonce signature h
              ∙ ap (◌∷◌ nonce) (
                  split_stops-no_stop signature (
                    no_stop-bytes_to_hex
                      (platform.hmac_sha256 secret (expiry ++ ("." ++ nonce))))))))

  -- A ticket that was made at `now` is accepted for the sixty seconds that follow, the last
  -- millisecond included, and refused from then on. Its nonce is not empty and has no full stop,
  -- and the clock is far from the end of the safe integers.
  pub verify-create_iff :
      (now later : Instant) (nonce : String)
      → no_stop nonce ≡ true
      → is_empty nonce ≡ false
      → now + 60000 ≤ max_safe_integer
      → (verify_admin_socket_ticket platform secret later
            (create_admin_socket_ticket platform secret now nonce).ticket
          ≡ true)
        ↔ (later ≤ now + 60000)
  verify-create_iff now later nonce h given safe =
      let expiry = decimal (now + 60000) in
      let (value, digits) = decimal_lem (now + 60000) in
      let parts = split_stops-create now nonce h in
      let accepted =
        verify_admin_socket_ticket_iff platform secret later
          (create_admin_socket_ticket platform secret now nonce).ticket in
      (
        λ e.
            let (expiry', nonce', signature', parts', signed) = accepted.0 e in
            let same : expiry' ≡ expiry = cc (parts, parts') in
            omega (arith, signed.fresh, ap (number_after 0) same, value),
        λ fresh. accepted.1 (
          expiry,
          nonce,
          hmac_hex platform secret (expiry ++ ("." ++ nonce)),
          parts,
          record {
            number = ground (arith, digits, decimal_given (now + 60000) (omega arith));
            has_nonce = given;
            safe = omega (arith, value);
            fresh = omega (arith, value);
            signed = refl;
          },
        ),
      )
