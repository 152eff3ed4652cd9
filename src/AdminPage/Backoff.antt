-- ===== src/AdminPage/Backoff.antt =====
-- How long the administration page waits before it opens its socket again (`scheduleReconnect` of
-- `src/worker/admin-page.ts`).
use task_hub.Shared.{ℕ, zero, suc, ◌+◌, ◌≤◌, ◌≡◌, arith, min}
use task_hub.AdminPage.Session.{reconnect_delay}

-- The wait before an attempt is at least a second and at most a minute, and the next attempt in a row
-- waits no shorter.
pub reconnect_delay_bounds :
    (attempt : ℕ)
    → (1000 ≤ reconnect_delay attempt)
      × (reconnect_delay attempt ≤ 60000)
      × (reconnect_delay attempt ≤ reconnect_delay (attempt + 1))
unfolding reconnect_delay
reconnect_delay_bounds zero = omega arith
reconnect_delay_bounds (suc zero) = omega arith
reconnect_delay_bounds (suc (suc zero)) = omega arith
reconnect_delay_bounds (suc (suc (suc zero))) = omega arith
reconnect_delay_bounds (suc (suc (suc (suc zero)))) = omega arith
reconnect_delay_bounds (suc (suc (suc (suc (suc n))))) =
    let e : min (suc (suc (suc (suc (suc n))))) 5 ≡ 5 = omega arith in
    let f : min (suc (suc (suc (suc (suc n)))) + 1) 5 ≡ 5 = omega arith in
    rw (reconnect_delay, e, f) (omega arith)
