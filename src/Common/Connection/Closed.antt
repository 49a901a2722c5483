-- ===== src/Common/Connection/Closed.antt =====
-- What a closed connection still does.
use nacos_sdk_nodejs.Prelude.{
  ℕ, zero, suc, ◌≤◌, ◌≡◌, refl, true, none, some, List, [], ◌∷◌, arith, Option-cases, inl, inr,
  length, All,
}
use nacos_sdk_nodejs.Common.Connection.{
  ConnectionEvent, connected, disconnected, reconnected, reconnecting, unhandled, Caller,
  by_connect, by_reconnect, settling, Frame, handshake, Options, Connection, fail, succeed,
  perform_handshake, login, after_login, after_check, after_settle, after_backoff, stream_lost,
}
use nacos_sdk_nodejs.Common.Connection.Inputs.{
  Answer, slept, Input, connect_call, close_call, resume, take_out, reset_target, on_reset,
  handle_incoming_payload, close, beat, resume_frame, resume_taken, stream_write, step, run,
}

-- how many attempts were announced
abbrev pub announced : List ConnectionEvent → ℕ
announced [] = 0
announced (reconnecting d ∷ es) = suc (announced es)
announced (connected ∷ es) = announced es
announced (disconnected ∷ es) = announced es
announced (reconnected ∷ es) = announced es
announced (unhandled t r ∷ es) = announced es

abbrev pub NotConnect : Input → Type 0
NotConnect connect_call = ⊥
NotConnect _ = Unit

-- The connection is closed, with `n` attempts announced and at most `m` frames that wait.
pub record Shut (n m : ℕ) (c : Connection) : Type 0 where
  pub closed : c.closed ≡ true
  pub attempts : announced c.emitted ≡ n
  pub frames : length c.frames ≤ m

length-take_out :
    (i : ℕ) (fs : List Frame) {f : Frame} {rest : List Frame}
    → take_out i fs ≡ some (f, rest)
    → length fs ≡ suc (length rest)
unfolding take_out
length-take_out i [] e = cc
length-take_out zero (x ∷ fs) e = ground arith
length-take_out (suc i) (x ∷ fs) {f} {rest} e = elim (Option-cases (take_out i fs)) [
  | inl n ↦ ground (arith, n)
  | inr ((y, ys), p) ↦ ground (arith, p, length-take_out i fs p)
]

resume-Shut :
    (o : Options) (n m : ℕ) (f : Frame) (a : Answer) (c : Connection)
    → Shut n m c
    → Shut n (suc m) (resume_frame o f a c)
unfolding resume_frame after_login after_backoff after_check after_settle succeed fail login
    perform_handshake
resume-Shut o n m f a c h = ground (arith, h)

taken-Shut :
    (o : Options) (n m i : ℕ) (a : Answer) (c : Connection)
    → Shut n m c
    → Shut n m (resume_taken o a (take_out i c.frames) c)
taken-Shut o n m i a c h = elim (Option-cases (take_out i c.frames)) [
  | inl e ↦ rw e h
  | inr ((f, fs), e) ↦ rw e (
      elim m as (λ k. Shut n k c → Shut n k (resume_taken o a (some (f, fs)) c)) [
        | zero ↦ λ s. absurd (omega (arith, s.frames, length-take_out i c.frames e))
        | suc k ↦ λ s.
            resume-Shut o n k f a (record c { frames = fs })
              (record {
                closed = s.closed;
                attempts = s.attempts;
                frames = omega (arith, s.frames, length-take_out i c.frames e);
              })
      ]
        h)
]

step-Shut :
    (o : Options) (n m : ℕ) (i : Input) (c : Connection)
    → NotConnect i
    → Shut n m c
    → Shut n m (step o i c)
unfolding step beat close stream_write handle_incoming_payload stream_lost on_reset reset_target
step-Shut o n m (resume i a) c q h = taken-Shut o n m i a c h
step-Shut o n m i c q h = ground (arith, h)

run-Shut :
    (o : Options) (n m : ℕ) (is : List Input) (c : Connection)
    → All NotConnect is
    → Shut n m c
    → Shut n m (run o is c)
unfolding run
run-Shut o n m [] c q h = h
run-Shut o n m (i ∷ is) c q h = run-Shut o n m is (step o i c) q.1 (step-Shut o n m i c q.0 h)

-- After `close`, and until `connect` is called again, whatever happens: the connection stays closed,
-- announces no further attempt to connect, and has no more calls that wait than it had.
pub close-Shut :
    (o : Options) (is : List Input) (c : Connection)
    → All NotConnect is
    → Shut (announced c.emitted) (length c.frames) (run o is (close c))
unfolding close
close-Shut o is c q =
    run-Shut o _ _ is (close c) q (record { closed = refl; attempts = refl; frames = omega arith })

-- A handshake that is past its server check when `close` is called is not stopped: once its pause of
-- 500 ms is over, the connection counts as connected again, though closed and without a stream, and
-- the heart beat's timer runs.
pub handshake_outlives_close :
    (o : Options) (c : Connection) (i : ℕ) (k : Caller) (fs : List Frame)
    → take_out i c.frames ≡ some (handshake k settling, fs)
    → let c' = run o (close_call ∷ resume i slept ∷ []) c in
      (c'.is_connected ≡ true) × (c'.closed ≡ true) × (c'.bi_stream ≡ none) × (c'.heartbeat ≡ true)
unfolding run step close resume_frame after_settle succeed
handshake_outlives_close o c i by_connect fs e = rw e (refl, refl, refl, refl)
handshake_outlives_close o c i by_reconnect fs e = rw e (refl, refl, refl, refl)
