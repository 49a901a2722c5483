-- ===== src/Examples/Connections.antt =====
-- A connection to one server that is lost, and tries again.
use nacos_sdk_nodejs.Prelude.{
  ◌≤◌, ◌≡◌, refl, true, false, some, none, codes, List, [], ◌∷◌, arith, text_eq,
}
use nacos_sdk_nodejs.Common.Address.{is_space}
use nacos_sdk_nodejs.Prelude.Dict
use nacos_sdk_nodejs.Common.Connection.{
  connected, disconnected, reconnecting, by_reconnect, settling, handshake, backing_off, Options,
  Connection, init, schedule_reconnect, fail, succeed, perform_handshake, get_current_server,
  no_login, login, after_login, after_check, after_settle, after_backoff, stream_lost,
}
use nacos_sdk_nodejs.Common.Connection.Inputs.{
  login_ended, check_ended, slept, Input, connect_call, close_call, resume, stream_failed, take_out,
  connect, close, resume_frame, step, run,
}
use nacos_sdk_nodejs.Common.Connection.Backoff.{Pace, backoff_doubles}
use nacos_sdk_nodejs.Common.Connection.Closed.{Shut, close-Shut, handshake_outlives_close}
use nacos_sdk_nodejs.Common.Connection.Servers.{server_stays}
use nacos_sdk_nodejs.Common.Transport
use nacos_sdk_nodejs.Common.Transport.{
  Transport, Settlement, Call, resolved, timed_out, stream_request, request, here, next, Reach,
  handle_payload, settlement_of, time_out,
}
use nacos_sdk_nodejs.Common.Transport.Tracking.{Tracked, Reach-Tracked}
use nacos_sdk_nodejs.Common.Address.{parse_server_address, port_number}
use nacos_sdk_nodejs.Common.Address.RoundTrip.{https, parse-written}

abbrev options : Options
options = record { server_list = codes "a" ∷ codes "b" ∷ []; username = []; password = [] }

abbrev establish : List Input
establish =
    connect_call
    ∷ resume 0 (login_ended no_login)
    ∷ resume 0 (check_ended (some []))
    ∷ resume 0 slept
    ∷ []

-- the stream fails, and so does the next server check
abbrev fail_twice : List Input
fail_twice =
    stream_failed 0
    ∷ resume 0 slept
    ∷ resume 0 (login_ended no_login)
    ∷ resume 0 (check_ended none)
    ∷ []

backoff_doubles_example :
    Pace 4000 (reconnecting 2000 ∷ reconnecting 1000 ∷ disconnected ∷ connected ∷ [])
    × (1000 ≤ 4000)
    × (4000 ≤ 60000)
unfolding run step connect perform_handshake resume_frame take_out after_login login
    get_current_server after_check text_eq after_settle succeed stream_lost schedule_reconnect
    after_backoff fail
backoff_doubles_example = backoff_doubles options (
    connect_call
    ∷ resume 0 (login_ended no_login)
    ∷ resume 0 (check_ended (some []))
    ∷ resume 0 slept
    ∷ fail_twice)

abbrev up : Connection
up = record init {
  is_connected = true;
  has_clients = true;
  bi_stream = some 0;
  streams = 1;
  heartbeat = true;
}

close-Shut_example :
    Shut 0 1 (run options fail_twice (close (record up { frames = backing_off ∷ [] })))
close-Shut_example =
    close-Shut options fail_twice (record up { frames = backing_off ∷ [] })
      (tt, (tt, (tt, (tt, tt))))

abbrev nearly_up : Connection
nearly_up = record up { is_connected = false; frames = handshake by_reconnect settling ∷ [] }

handshake_outlives_close_example :
    let c = run options (close_call ∷ resume 0 slept ∷ []) nearly_up in
    (c.is_connected ≡ true) × (c.closed ≡ true) × (c.bi_stream ≡ none) × (c.heartbeat ≡ true)
unfolding take_out
handshake_outlives_close_example = handshake_outlives_close options nearly_up 0 by_reconnect [] refl

server_stays_example :
    get_current_server options (run options fail_twice up) ≡ get_current_server options up
server_stays_example = server_stays options fail_twice up (tt, (tt, (tt, (tt, tt))))

abbrev asked : Transport
asked = stream_request (codes "r") true Transport.init

asked-Reach : Reach Transport.init asked
unfolding Dict.get
asked-Reach = next here (request (codes "r") true refl refl)

Reach-Tracked_example : Tracked asked
Reach-Tracked_example = Reach-Tracked asked-Reach

abbrev answer : Transport.Decoded
answer = record { type_ = codes "Answer"; request_id = codes "r"; body = 7 }

parse-written_example :
    parse_server_address (codes "https://a:80/nacos") (port_number 8848)
    ≡ record { host = codes "a"; port = port_number 80 }
unfolding is_space
parse-written_example =
    parse-written https (codes "a") 8 (0 ∷ []) (some (codes "nacos")) (port_number 8848)
      ((refl, refl), tt) (omega arith, (omega arith, tt))
