-- ===== src/Common/Connection/Backoff.antt =====
-- The pauses between two attempts to connect.
use nacos_sdk_nodejs.Prelude.{ℕ, zero, suc, ◌*◌, ◌^◌, ◌≤◌, ◌≡◌, refl, min, List, [], ◌∷◌, arith}
use nacos_sdk_nodejs.Common.Connection.{
  ConnectionEvent, connected, disconnected, reconnected, reconnecting, unhandled, Options,
  Connection, init, schedule_reconnect, fail, succeed, perform_handshake, login, after_login,
  after_check, after_settle, after_backoff, stream_lost,
}
use nacos_sdk_nodejs.Common.Connection.Inputs.{
  Input, reset_target, on_reset, handle_incoming_payload, connect, close, beat, resume_frame,
  stream_write, step, run,
}

-- the pause after `k` attempts that failed
abbrev pub delay : ℕ → ℕ
delay k = min (1000 * 2 ^ k) 60000

-- how many times a new attempt was announced since the last connection, in a list of events, the
-- last one first
unfoldable pub attempts : List ConnectionEvent → ℕ
attempts [] = 0
attempts (connected ∷ es) = 0
attempts (reconnecting d ∷ es) = suc (attempts es)
attempts (disconnected ∷ es) = attempts es
attempts (reconnected ∷ es) = attempts es
attempts (unhandled t r ∷ es) = attempts es

-- Every pause that was announced is the one for its number since the last connection.
abbrev pub Delays : List ConnectionEvent → Type 0
Delays [] = Unit
Delays (connected ∷ es) = Delays es
Delays (reconnecting d ∷ es) = (d ≡ delay (attempts es)) × Delays es
Delays (disconnected ∷ es) = Delays es
Delays (reconnected ∷ es) = Delays es
Delays (unhandled t r ∷ es) = Delays es

pub record Pace (backoff : ℕ) (es : List ConnectionEvent) : Type 0 where
  pub next_delay : backoff ≡ delay (attempts es)
  pub delays : Delays es

abbrev pub Paced : Connection → Type 0
Paced c = Pace c.reconnect_backoff c.emitted

delay-suc : (k : ℕ) → delay (suc k) ≡ min (delay k * 2) 60000
delay-suc k = omega arith

delay-le : (k : ℕ) → (1000 ≤ delay k) × (delay k ≤ 60000)
delay-le zero = omega arith
delay-le (suc k) = omega (arith, delay-suc k, delay-le k)

step-Paced : (o : Options) (i : Input) (c : Connection) → Paced c → Paced (step o i c)
unfolding step connect close perform_handshake beat stream_write handle_incoming_payload stream_lost
    schedule_reconnect resume_frame after_login after_backoff after_check after_settle succeed fail
    login on_reset reset_target attempts
step-Paced o i c h = ground (arith, delay-suc (attempts c.emitted), h)

run-Paced : (o : Options) (is : List Input) (c : Connection) → Paced c → Paced (run o is c)
unfolding run
run-Paced o [] c h = h
run-Paced o (i ∷ is) c h = run-Paced o is (step o i c) (step-Paced o i c h)

-- Whatever happens to a new connection, each pause that it announced is 1000 * 2 ^ k ms, cut off at
-- 60000 ms, where k pauses were announced since the last connection; so is the pause that the next
-- attempt would get, which is at least 1000 and at most 60000 ms.
pub backoff_doubles :
    (o : Options) (is : List Input)
    → let c = run o is init in
      Pace c.reconnect_backoff c.emitted
      × (1000 ≤ c.reconnect_backoff)
      × (c.reconnect_backoff ≤ 60000)
unfolding attempts
backoff_doubles o is =
    let p = run-Paced o is init (record { next_delay = refl; delays = tt }) in
    let b = delay-le (attempts (run o is init).emitted) in
    (p, omega (arith, p.next_delay, b), omega (arith, p.next_delay, b))
