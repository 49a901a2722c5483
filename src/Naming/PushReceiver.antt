-- ===== src/Naming/PushReceiver.antt =====
-- packages/nacos-naming/src/naming/push_receiver.ts: the UDP socket that takes the server's pushes.
-- A socket and a caller of `close` are numbers. An `Input` is an event of the socket or a call; Node
-- emits no event but `close` on a socket after its `close()`.
pub mod Closing
use nacos_sdk_nodejs.Prelude.{
  ℕ, suc, Bool, true, false, Option, none, some, Text, text_eq, codes, List, [], ◌∷◌, ◌++◌,
  if◌then◌else◌,
}
use nacos_sdk_nodejs.Naming.HostReactor.{ReactorEnv, Reactor, process_service_json}

pub record PushPacket : Type 0 where
  pub kind : Text
  pub data_text : Text
  pub last_ref_time : Option ℕ

-- an acknowledgement, before `JSON.stringify`; its `data` is empty wherever one is sent
pub record Ack : Type 0 where
  pub kind : Text
  pub last_ref_time : Option ℕ

-- how far the present socket is
pub data Socket : Type 0 where
  running : Socket
  closing : Socket
  closed : Socket

pub data Input : Type 0 where
  listening : ℕ → Input
  message : Text → ℕ → Input
  error_event : Input
  close_event : Input
  close_call : ℕ → Input

-- `read_packet` is `JSON.parse(tryDecompress(msg).toString())`, none where one of them throws
module _ (env : ReactorEnv) (read_packet : Text → Option PushPacket) where
  pub record Receiver : Type 0 where
    pub reactor : Reactor env
    pub udp_port : ℕ
    pub is_closed : Bool
    -- `_server`; none is null
    pub server : Option ℕ
    pub socket : Socket
    pub created : ℕ
    -- the callers whose `resolve` the socket calls when it has closed
    pub resolvers : List ℕ
    pub resolved : List ℕ
    pub rejected : List ℕ
    -- what was sent, with the address it was sent to, the last one first
    pub sent : List (ℕ × Ack)
    pub errors : ℕ

  -- `_createServer`
  unfoldable pub create_server : Receiver → Receiver
  create_server r = record r { server = some r.created; socket = running; created = suc r.created }

  -- the `catch` of `_handlePushMessage`, and the end of the handler of `error`
  abbrev pub emit_error : Receiver → Receiver
  emit_error r = record r { errors = suc r.errors }

  abbrev pub send : Text → PushPacket → ℕ → Receiver → Receiver
  send kind p sender r = record r {
    sent = (sender, record { kind = kind; last_ref_time = p.last_ref_time }) ∷ r.sent;
  }

  abbrev pub handle_dom : PushPacket → ℕ → Receiver → Receiver
  handle_dom p sender r = elim (process_service_json env p.data_text r.reactor) [
    | none ↦ emit_error r
    | some (_, reactor') ↦ send (codes "push-ack") p sender (record r { reactor = reactor' })
  ]

  -- for a `dump`, the code calls the value of the getter `getServiceInfoMap`, an object, which throws
  unfoldable pub handle_packet : PushPacket → ℕ → Receiver → Receiver
  handle_packet p sender r =
      let other =
        if text_eq p.kind (codes "dump")
        then emit_error r
        else send (codes "unknown-ack") p sender r in
      if text_eq p.kind (codes "dom") then handle_dom p sender r else other

  -- `_handlePushMessage`
  unfoldable pub handle_push_message : Text → ℕ → Receiver → Receiver
  handle_push_message bytes sender r = elim (read_packet bytes) [
    | none ↦ emit_error r
    | some p ↦ handle_packet p sender r
  ]

  -- the handler of the socket's `close`, and those that `close()` gave to the socket
  unfoldable pub socket_closed : Receiver → Receiver
  socket_closed r =
      let r' = record r { socket = closed; resolvers = []; resolved = r.resolvers ++ r.resolved } in
      if r.is_closed then r' else create_server r'

  -- `this._server.close(resolve)`, which throws on a socket that is not open
  abbrev pub close_socket : ℕ → Socket → Receiver → Receiver
  close_socket c running r = record r {
    server = none;
    socket = closing;
    resolvers = c ∷ r.resolvers;
  }
  close_socket c closing r = record r { rejected = c ∷ r.rejected }
  close_socket c closed r = record r { rejected = c ∷ r.rejected }

  -- `close`
  unfoldable pub close : ℕ → Receiver → Receiver
  close c r =
      let r' = record r { is_closed = true } in
      elim r.server [ none ↦ r' | some i ↦ close_socket c r.socket r' ]

  -- an input while the socket is open, closing, closed
  abbrev pub handle : Input → Socket → Receiver → Receiver
  handle (listening p) running r = record r { udp_port = p }
  handle (listening p) closing r = r
  handle (listening p) closed r = r
  handle (message b a) running r = handle_push_message b a r
  handle (message b a) closing r = r
  handle (message b a) closed r = r
  handle error_event running r = emit_error (record r { socket = closing })
  handle error_event closing r = r
  handle error_event closed r = r
  handle close_event running r = r
  handle close_event closing r = socket_closed r
  handle close_event closed r = r
  handle (close_call c) s r = close c r

  unfoldable pub step : Input → Receiver → Receiver
  step i r = handle i r.socket r

  unfoldable pub run : List Input → Receiver → Receiver
  run [] r = r
  run (i ∷ is) r = run is (step i r)
