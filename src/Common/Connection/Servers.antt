-- ===== src/Common/Connection/Servers.antt =====
-- Which server and which stream a connection uses.
use nacos_sdk_nodejs.Prelude.{
  ℕ, ◌≡◌, refl, ◌∙◌, true, false, ◌⊎◌, some, List, [], ◌∷◌, arith, Bool-cases, inl, inr, text_eq,
  codes, is_empty, ltb, All,
}
use nacos_sdk_nodejs.Common.Connection.{
  Caller, by_connect, by_reconnect, settling, Frame, handshake, Options, Connection,
  schedule_reconnect, fail, succeed, perform_handshake, get_current_server, login, after_login,
  after_check, after_settle, after_backoff, stream_lost,
}
use nacos_sdk_nodejs.Common.Connection.Inputs.{
  slept, Input, resume, stream_failed, received, take_out, reset_target, on_reset,
  handle_incoming_payload, connect, close, beat, resume_frame, stream_write, step, run,
}

-- No request of the server to connect again that names a server.
abbrev pub NotMoved : Input → Type 0
NotMoved (received p) =
    (text_eq p.type_ (codes "ConnectResetRequest") ≡ false) ⊎ (is_empty p.server_ip ≡ true)
NotMoved _ = Unit

index-step :
    (o : Options) (i : Input) (c : Connection)
    → NotMoved i
    → (step o i c).server_index ≡ c.server_index
unfolding step connect close perform_handshake beat stream_write handle_incoming_payload stream_lost
    schedule_reconnect resume_frame after_login after_backoff after_check after_settle succeed fail
    login on_reset reset_target
index-step o i c h = ground arith

index-run :
    (o : Options) (is : List Input) (c : Connection)
    → All NotMoved is
    → (run o is c).server_index ≡ c.server_index
unfolding run
index-run o [] c h = refl
index-run o (i ∷ is) c h = index-run o is (step o i c) h.1 ∙ index-step o i c h.0

-- The server changes only when the server itself asks for it and names another one: until then,
-- every attempt to connect, however many have failed, goes to the same server of the list.
pub server_stays :
    (o : Options) (is : List Input) (c : Connection)
    → All NotMoved is
    → get_current_server o (run o is c) ≡ get_current_server o c
unfolding get_current_server
server_stays o is c h = rw (index-run o is c h) refl

-- The failure of a stream, its own one too, while a handshake of a new connection pauses after the
-- setup is not noticed: once the pause is over, the connection counts as connected.
pub early_failure_unnoticed :
    (o : Options) (s i : ℕ) (k : Caller) (fs : List Frame) (c : Connection)
    → c.is_connected ≡ false
    → take_out i c.frames ≡ some (handshake k settling, fs)
    → let c' = run o (stream_failed s ∷ resume i slept ∷ []) c in
      (c'.is_connected ≡ true) × (c'.bi_stream ≡ c.bi_stream) × (c'.frames ≡ fs)
unfolding run step stream_lost resume_frame after_settle succeed
early_failure_unnoticed o s i by_connect fs c h e = elim (Bool-cases (ltb s c.streams)) [
  | inl l ↦ rw (l, h, e) (refl, refl, refl)
  | inr l ↦ rw (l, h, e) (refl, refl, refl)
]
early_failure_unnoticed o s i by_reconnect fs c h e = elim (Bool-cases (ltb s c.streams)) [
  | inl l ↦ rw (l, h, e) (refl, refl, refl)
  | inr l ↦ rw (l, h, e) (refl, refl, refl)
]
