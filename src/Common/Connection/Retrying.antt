-- ===== src/Common/Connection/Retrying.antt =====
-- A connection that was lost is not given up before it is closed.
use nacos_sdk_nodejs.Prelude.{
  ℕ, zero, suc, ◌≡◌, Bool, true, false, ◌||◌, some, List, [], ◌∷◌, arith, Option-cases, inl, inr,
  any, All,
}
use nacos_sdk_nodejs.Common.Connection.{
  by_connect, by_reconnect, Frame, handshake, backing_off, Options, Connection, schedule_reconnect,
  fail, succeed, perform_handshake, login, after_login, after_check, after_settle, after_backoff,
  stream_lost,
}
use nacos_sdk_nodejs.Common.Connection.Inputs.{
  Answer, Input, close_call, resume, take_out, reset_target, on_reset, handle_incoming_payload,
  connect, beat, resume_frame, resume_taken, stream_write, step, run,
}

-- The frame belongs to `scheduleReconnect`, so that it tries again.
abbrev pub is_retry : Frame → Bool
is_retry (handshake by_connect s) = false
is_retry (handshake by_reconnect s) = true
is_retry backing_off = true

-- The connection is open, and connected or about to connect again.
abbrev pub IsTrying : Connection → Type 0
IsTrying c = (c.closed ≡ false) × ((c.is_connected || any is_retry c.frames) ≡ true)

abbrev pub NotClose : Input → Type 0
NotClose close_call = ⊥
NotClose _ = Unit

any-take_out :
    (i : ℕ) (fs : List Frame) {f : Frame} {rest : List Frame}
    → take_out i fs ≡ some (f, rest)
    → any is_retry fs ≡ (is_retry f || any is_retry rest)
unfolding take_out
any-take_out i [] e = cc
any-take_out zero (x ∷ fs) e = ground arith
any-take_out (suc i) (x ∷ fs) {f} {rest} e = elim (Option-cases (take_out i fs)) [
  | inl n ↦ ground (arith, n)
  | inr ((y, ys), p) ↦ ground (arith, p, any-take_out i fs p)
]

resume-IsTrying :
    (o : Options) (f : Frame) (a : Answer) (c : Connection)
    → c.closed ≡ false
    → (c.is_connected || (is_retry f || any is_retry c.frames)) ≡ true
    → IsTrying (resume_frame o f a c)
unfolding schedule_reconnect resume_frame after_login after_backoff after_check after_settle succeed
    fail login perform_handshake
resume-IsTrying o f a c h t = ground arith

taken-IsTrying :
    (o : Options) (i : ℕ) (a : Answer) (c : Connection)
    → IsTrying c
    → IsTrying (resume_taken o a (take_out i c.frames) c)
taken-IsTrying o i a c h = elim (Option-cases (take_out i c.frames)) [
  | inl e ↦ rw e h
  | inr ((f, fs), e) ↦ rw e (
      resume-IsTrying o f a (record c { frames = fs }) h.0
        (ground (arith, h, any-take_out i c.frames e)))
]

step-IsTrying :
    (o : Options) (i : Input) (c : Connection) → NotClose i → IsTrying c → IsTrying (step o i c)
unfolding step connect perform_handshake beat stream_write handle_incoming_payload stream_lost
    schedule_reconnect on_reset reset_target
step-IsTrying o (resume i a) c n h = taken-IsTrying o i a c h
step-IsTrying o i c n h = ground (arith, h)

-- A connection that is open, and connected or about to connect again, stays so until it is closed:
-- no failure of a stream, a handshake or a login, in any order, makes it give up.
pub run-IsTrying :
    (o : Options) (is : List Input) (c : Connection)
    → All NotClose is
    → IsTrying c
    → IsTrying (run o is c)
unfolding run
run-IsTrying o [] c n h = h
run-IsTrying o (i ∷ is) c n h = run-IsTrying o is (step o i c) n.1 (step-IsTrying o i c n.0 h)
