-- ===== src/Common/Connection/Inputs.antt =====
-- packages/nacos-common/src/grpc/connection.ts: what a `GrpcConnection` does on each call of a
-- client, each answer to a frame that waits and each payload from the stream.
use nacos_sdk_nodejs.Prelude.{
  ℕ, zero, suc, ◌+◌, ◌%◌, true, false, Option, none, some, Text, codes, List, [], ◌∷◌, ◌++◌,
  if◌then◌else◌, is_empty, or_text, text_eq, length, ltb,
}
use nacos_sdk_nodejs.Prelude.Dict
use nacos_sdk_nodejs.Common.Connection.{
  Connection, Options, Frame, LoginEnd, Handling, handshake, backing_off, logging_in, checking,
  settling, by_connect, wait, write, emit, disconnected, unhandled, reset_response,
  detection_response, push_response, health_check, payload, perform_handshake, after_login,
  after_check, after_settle, after_backoff, stream_lost, schedule_reconnect, stop_heartbeat,
}

-- a payload from the server: its type, the request id of its body, empty where it has none, and
-- whether the body names a server
pub record Incoming : Type 0 where
  pub type_ : Text
  pub request_id : Text
  pub server_ip : Text

pub data Answer : Type 0 where
  login_ended : LoginEnd → Answer
  -- the type of the answer to the server check; none where it failed or came too late
  check_ended : Option Text → Answer
  slept : Answer

pub data Input : Type 0 where
  connect_call close_call heartbeat_tick : Input
  -- the frame with this number gets an answer
  resume : ℕ → Answer → Input
  -- a stream, by its number, fails or ends
  stream_failed stream_ended : ℕ → Input
  received : Incoming → Input
  -- the handler with this number ends: with the type of its response, which may be empty, or
  -- without a response
  handler_ended : ℕ → Option Text → Input
  on_server_push : Text → ℕ → Input
  remove_server_push_handler : Text → Input
  stream_write_call : Text → Input

abbrev push_aside {ℓ} : {A : Type ℓ} → A → Option (A × List A) → Option (A × List A)
push_aside x none = none
push_aside x (some (y, ys)) = some (y, x ∷ ys)

-- an element by its number, and the others
unfoldable pub take_out {ℓ} : {A : Type ℓ} → ℕ → List A → Option (A × List A)
take_out i [] = none
take_out zero (x ∷ xs) = some (x, xs)
take_out (suc i) (x ∷ xs) = push_aside x (take_out i xs)

unfoldable pub reset_target : Options → Incoming → Connection → Connection
reset_target o p c =
    if is_empty p.server_ip
    then c
    else record c { server_index = (c.server_index + 1) % length o.server_list }

-- `ConnectResetRequest`
unfoldable pub on_reset : Options → Incoming → Connection → Connection
on_reset o p c =
    let c' =
      emit disconnected (record (write (reset_response p.request_id) c) { is_connected = false }) in
    if c'.closed then c' else schedule_reconnect (reset_target o p c')

abbrev pub dispatch : Option ℕ → Incoming → Connection → Connection
dispatch none p c = emit (unhandled p.type_ p.request_id) c
dispatch (some h) p c = record c {
  handling = record { push_type = p.type_; request_id = p.request_id } ∷ c.handling;
}

unfoldable pub handle_incoming_payload : Options → Incoming → Connection → Connection
handle_incoming_payload o p c =
    if text_eq p.type_ (codes "ConnectResetRequest")
    then on_reset o p c
    else if text_eq p.type_ (codes "ClientDetectionRequest")
    then write (detection_response p.request_id) c
    else dispatch (Dict.get p.type_ c.push_handlers) p c

-- the response of a handler is sent only where the push has a request id
abbrev pub respond : Handling → Option Text → Connection → Connection
respond h none c = c
respond h (some t) c =
    if is_empty h.request_id
    then c
    else write (push_response (or_text t (h.push_type ++ codes "Response"))) c

abbrev pub end_handler : Option Text → Option (Handling × List Handling) → Connection → Connection
end_handler r none c = c
end_handler r (some (h, hs)) c = respond h r (record c { handling = hs })

unfoldable pub connect : Connection → Connection
connect c = perform_handshake by_connect (record c { closed = false })

unfoldable pub close : Connection → Connection
close c = emit disconnected (record (stop_heartbeat c) {
  closed = true;
  is_connected = false;
  bi_stream = none;
  has_clients = false;
})

-- the body of the timer that `startHeartbeat` sets
unfoldable pub beat : Connection → Connection
beat c =
    if c.heartbeat
    then (if c.is_connected then (if c.closed then c else write health_check c) else c)
    else c

-- a frame, taken from those that wait, goes on; an answer that is not meant for it leaves it
unfoldable pub resume_frame : Options → Frame → Answer → Connection → Connection
resume_frame o (handshake k logging_in) (login_ended e) c = after_login o k e c
resume_frame o (handshake k checking) (check_ended r) c = after_check k r c
resume_frame o (handshake k settling) slept c = after_settle k c
resume_frame o backing_off slept c = after_backoff c
resume_frame o f a c = wait f c

abbrev pub resume_taken : Options → Answer → Option (Frame × List Frame) → Connection → Connection
resume_taken o a none c = c
resume_taken o a (some (f, fs)) c = resume_frame o f a (record c { frames = fs })

-- `streamWrite` where it does not throw
unfoldable pub stream_write : Text → Connection → Connection
stream_write p c = if c.is_connected then write (payload p) c else c

unfoldable pub step : Options → Input → Connection → Connection
step o connect_call c = connect c
step o close_call c = close c
step o heartbeat_tick c = beat c
step o (resume i a) c = resume_taken o a (take_out i c.frames) c
step o (stream_failed s) c = if ltb s c.streams then stream_lost c else c
step o (stream_ended s) c = if ltb s c.streams then stream_lost c else c
step o (received p) c = handle_incoming_payload o p c
step o (handler_ended i r) c = end_handler r (take_out i c.handling) c
step o (on_server_push t h) c = record c { push_handlers = Dict.set t h c.push_handlers }
step o (remove_server_push_handler t) c = record c { push_handlers = Dict.delete t c.push_handlers }
step o (stream_write_call p) c = stream_write p c

unfoldable pub run : Options → List Input → Connection → Connection
run o [] c = c
run o (i ∷ is) c = run o is (step o i c)
