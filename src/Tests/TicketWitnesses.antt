-- ===== src/Tests/TicketWitnesses.antt =====
-- The theorem on tickets, at a ticket of the toy platform.
use task_hub.Shared.{◌≡◌, refl, ◌↔◌, ◌≤◌, arith, true, [], ◌∷◌, String}
use task_hub.Security.Ticket.{
  split_stops, verify_admin_socket_ticket, IsSigned, verify_admin_socket_ticket_iff,
}
use task_hub.Security.Ticket.{create_admin_socket_ticket}
use task_hub.Security.Ticket.RoundTrip.{no_stop, verify-create_iff}
use task_hub.Shared.Text.Split.{lacks}
use task_hub.Tests.{toy}

verify_admin_socket_ticket_iff_example :
    (verify_admin_socket_ticket toy "key" 99 "100.n.3130302e6e" ≡ true) ↔ (
      (expiry : String) × (nonce : String) × (signature : String) × (split_stops "100.n.3130302e6e"
        ≡ expiry ∷ nonce ∷ signature ∷ [])
      × IsSigned toy "key" 99 expiry nonce signature)
verify_admin_socket_ticket_iff_example =
    verify_admin_socket_ticket_iff toy "key" 99 "100.n.3130302e6e"

verify-create_iff_example :
    (verify_admin_socket_ticket toy "key" 60007 (create_admin_socket_ticket toy "key" 7 "n").ticket
      ≡ true)
    ↔ (60007 ≤ 60007)
unfolding no_stop lacks
verify-create_iff_example = verify-create_iff toy "key" 7 60007 "n" refl refl (omega arith)
