-- ===== src/Common/Connection.antt =====
-- packages/nacos-common/src/grpc/connection.ts: `GrpcConnection`, one gRPC channel with its
-- two-way stream, the handshake, the heart beat and the loop that connects again. An asynchronous
-- call that waits is a frame; a frame goes on when an answer arrives, in any order. The sockets,
-- timers and the codec are outside: what they report is an `Input`.
pub mod Inputs
pub mod Backoff
pub mod Retrying
pub mod Closed
pub mod Servers
pub mod Recovery
use nacos_sdk_nodejs.Prelude.{
  ℕ, zero, suc, ◌+◌, ◌*◌, ◌%◌, ◌<◌, min, Bool, true, false, Option, none, some, Text, Outcome, ok,
  err, codes, List, [], ◌∷◌, ◌++◌, if◌then◌else◌, is_empty, or_text, text_eq, length, get_elem?,
  ltb, not, ◌&&◌,
}
use nacos_sdk_nodejs.Prelude.Dict
use nacos_sdk_nodejs.Prelude.Dict.{Dict}

abbrev pub first_backoff : ℕ
first_backoff = 1000

-- `MAX_BACKOFF_MS`
abbrev pub max_backoff : ℕ
max_backoff = 60000

-- what is written on the stream; an empty request id stands for one that is generated
pub data Message : Type 0 where
  setup_request health_check : Message
  reset_response detection_response : Text → Message
  push_response : Text → Message
  payload : Text → Message

pub data ConnectionEvent : Type 0 where
  connected disconnected reconnected : ConnectionEvent
  reconnecting : ℕ → ConnectionEvent
  -- a payload that no handler takes: its type, and its request id
  unhandled : Text → Text → ConnectionEvent

pub data Caller : Type 0 where
  by_connect by_reconnect : Caller

-- where `performHandshake` waits: for the login, for the answer to the server check, and for the
-- 500 ms after the setup
pub data Stage : Type 0 where
  logging_in checking settling : Stage

pub data Frame : Type 0 where
  handshake : Caller → Stage → Frame
  -- `scheduleReconnect`, in `await sleep(backoff)`
  backing_off : Frame

-- a handler of a push that runs: the type and the request id of the push
pub record Handling : Type 0 where
  pub push_type : Text
  pub request_id : Text

pub record Options : Type 0 where
  pub server_list : List Text
  pub username : Text
  pub password : Text

pub record Connection : Type 0 where
  pub is_connected : Bool
  pub closed : Bool
  pub server_index : ℕ
  pub access_token : Text
  -- `requestClient` and `biStreamClient`, which are made and dropped together
  pub has_clients : Bool
  -- `biStream`: streams are numbered as they are opened
  pub bi_stream : Option ℕ
  pub streams : ℕ
  pub heartbeat : Bool
  pub reconnect_backoff : ℕ
  -- a handler is a number
  pub push_handlers : Dict ℕ
  pub frames : List Frame
  pub handling : List Handling
  -- the last ones first: what was written and where, the events, how calls of `connect` ended
  pub written : List (ℕ × Message)
  pub emitted : List ConnectionEvent
  pub connects : List Bool

abbrev pub init : Connection
init = record {
  is_connected = false;
  closed = false;
  server_index = 0;
  access_token = [];
  has_clients = false;
  bi_stream = none;
  streams = 0;
  heartbeat = false;
  reconnect_backoff = first_backoff;
  push_handlers = [];
  frames = [];
  handling = [];
  written = [];
  emitted = [];
  connects = [];
}

abbrev pub emit : ConnectionEvent → Connection → Connection
emit e c = record c { emitted = e ∷ c.emitted }

abbrev pub wait : Frame → Connection → Connection
wait f c = record c { frames = f ∷ c.frames }

abbrev pub write_on : Option ℕ → Message → Connection → Connection
write_on none m c = c
write_on (some s) m c = record c { written = (s, m) ∷ c.written }

-- `this.biStream.write(m)`, where an error that is thrown is caught
abbrev pub write : Message → Connection → Connection
write m c = write_on c.bi_stream m c

abbrev pub stop_heartbeat : Connection → Connection
stop_heartbeat c = record c { heartbeat = false }

abbrev pub start_heartbeat : Connection → Connection
start_heartbeat c = record c { heartbeat = true }

abbrev pub announce_backoff : ℕ → Connection → Connection
announce_backoff b c =
    emit (reconnecting (min b max_backoff))
      (record (stop_heartbeat c) { reconnect_backoff = min (b * 2) max_backoff })

-- `scheduleReconnect` until it waits; `pendingRequests` is never filled, so nothing is rejected
unfoldable pub schedule_reconnect : Connection → Connection
schedule_reconnect c = wait backing_off (announce_backoff c.reconnect_backoff c)

abbrev pub schedule_unless_closed : Connection → Connection
schedule_unless_closed c = if c.closed then c else schedule_reconnect c

-- an error of `performHandshake`, seen by its caller
unfoldable pub fail : Caller → Connection → Connection
fail by_connect c = record c { connects = false ∷ c.connects }
fail by_reconnect c = schedule_unless_closed c

unfoldable pub succeed : Caller → Connection → Connection
succeed by_connect c = record c { connects = true ∷ c.connects }
succeed by_reconnect c = emit reconnected c

-- `performHandshake` until it waits for the login
unfoldable pub perform_handshake : Caller → Connection → Connection
perform_handshake k c = wait (handshake k logging_in) c

-- the server that the connection uses: none where the list is empty
unfoldable pub get_current_server : Options → Connection → Option Text
get_current_server o c = get_elem? o.server_list (c.server_index % length o.server_list)

-- how a login ends: with a token, with an error, which is swallowed, or with one that the call of the
-- HTTP module throws at once, which rejects the handshake
pub data LoginEnd : Type 0 where
  token : Text → LoginEnd
  no_login : LoginEnd
  login_throws : LoginEnd

abbrev pub with_token : LoginEnd → Connection → Connection
with_token (token t) c = record c { access_token = t }
with_token no_login c = c
with_token login_throws c = c

abbrev pub is_throw : LoginEnd → Bool
is_throw (token t) = false
is_throw no_login = false
is_throw login_throws = true

-- whether the login is tried, and throws
abbrev pub login_rejects : Options → LoginEnd → Bool
login_rejects o e = is_throw e && (not (is_empty o.username) && not (is_empty o.password))

-- `login`: without a user name and a password it does nothing
unfoldable pub login : Options → LoginEnd → Connection → Connection
login o e c = if is_empty o.username then c else (if is_empty o.password then c else with_token e c)

abbrev pub create_clients : Connection → Connection
create_clients c = record c { has_clients = true }

abbrev pub check_server : Caller → Option Text → Connection → Connection
check_server k none c = fail k c
check_server k (some addr) c = wait (handshake k checking) (create_clients c)

-- `performHandshake` from the end of the login to the answer of the server check
unfoldable pub after_login : Options → Caller → LoginEnd → Connection → Connection
after_login o k e c =
    let c' = login o e c in
    let checked = check_server k (get_current_server o c') c' in
    if login_rejects o e then fail k c else checked

abbrev pub open_stream : Connection → Connection
open_stream c = record c {
  bi_stream = some c.streams;
  streams = suc c.streams;
  written = (c.streams, setup_request) ∷ c.written;
}

-- `performHandshake` from the answer to the server check, given by its type, to the pause of
-- 500 ms; none where the check failed. The clients are gone when `close` was called meanwhile.
unfoldable pub after_check : Caller → Option Text → Connection → Connection
after_check k none c = fail k c
after_check k (some type_) c =
    if text_eq type_ (codes "ErrorResponse")
    then fail k c
    else if c.has_clients
    then wait (handshake k settling) (open_stream c)
    else fail k c

-- the rest of `performHandshake`
unfoldable pub after_settle : Caller → Connection → Connection
after_settle k c = succeed k (
    start_heartbeat
      (emit connected (record c { is_connected = true; reconnect_backoff = first_backoff })))

-- `scheduleReconnect` after its pause
unfoldable pub after_backoff : Connection → Connection
after_backoff c = if c.closed then c else perform_handshake by_reconnect c

-- the stream's listeners of `error` and `end`: they do not ask which stream it is
unfoldable pub stream_lost : Connection → Connection
stream_lost c =
    if c.is_connected
    then schedule_unless_closed (emit disconnected (record c { is_connected = false }))
    else c
