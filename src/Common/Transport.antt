-- ===== src/Common/Transport.antt =====
-- packages/nacos-common/src/grpc/transport_client.ts: `GrpcTransportClient`, requests over a
-- connection. A call of `streamRequest` is a number that stands for its promise; its answer comes
-- back on the stream under its request id.
pub mod Tracking
use nacos_sdk_nodejs.Prelude.{
  ℕ, suc, ◌<◌, ◌≡◌, Bool, true, false, Option, none, some, Text, Outcome, ok, err, codes, List, [],
  ◌∷◌, ◌==◌, if◌then◌else◌, is_empty, text_eq,
}
use nacos_sdk_nodejs.Prelude.Dict
use nacos_sdk_nodejs.Prelude.Dict.{Dict}

-- how a promise ends: with the body of the answer, a number, or with one of three errors
pub data Settlement : Type 0 where
  resolved error_response : ℕ → Settlement
  timed_out not_written : Settlement

pub record Call : Type 0 where
  pub request_id : Text
  -- the timer is set
  pub armed : Bool
  -- none while the promise waits
  pub end : Option Settlement

pub record Transport : Type 0 where
  -- request id -> call
  pub pending : Dict ℕ
  pub calls : ℕ → Call
  pub count : ℕ

abbrev pub init : Transport
init = record {
  pending = [];
  calls = λ _. record { request_id = []; armed = false; end = none };
  count = 0;
}

-- a decoded payload of the stream; an empty request id stands for none
pub record Decoded : Type 0 where
  pub type_ : Text
  pub request_id : Text
  pub body : ℕ

abbrev pub put_call : ℕ → Call → Transport → Transport
put_call i c t = record t { calls = λ j. if j == i then c else t.calls j }

-- the first call of `resolve` or `reject` counts
abbrev pub or_end : Option Settlement → Settlement → Settlement
or_end none s = s
or_end (some e) s = e

-- `clearTimeout`, `pending.delete` and `resolve` or `reject`; a timer that runs is over too
unfoldable pub settle : ℕ → Settlement → Transport → Transport
settle i s t =
    let c = t.calls i in
    put_call i (record c { armed = false; end = some (or_end c.end s) })
      (record t { pending = Dict.delete c.request_id t.pending })

abbrev pub settlement_of : Decoded → Settlement
settlement_of d =
    if text_eq d.type_ (codes "ErrorResponse") then error_response d.body else resolved d.body

abbrev pub settle_found : Option ℕ → Settlement → Transport → Transport
settle_found none s t = t
settle_found (some i) s t = settle i s t

-- `handlePayload`
unfoldable pub handle_payload : Decoded → Transport → Transport
handle_payload d t =
    if is_empty d.request_id
    then t
    else settle_found (Dict.get d.request_id t.pending) (settlement_of d) t

abbrev pub start_call : Text → Transport → Transport
start_call id t = record {
  pending = Dict.set id t.count t.pending;
  calls =
      λ j. if j == t.count then record { request_id = id; armed = true; end = none } else t.calls j;
  count = suc t.count;
}

-- `streamRequest`, with its request id, and whether the connection takes the payload
unfoldable pub stream_request : Text → Bool → Transport → Transport
stream_request id writes t =
    let t' = start_call id t in if writes then t' else settle t.count not_written t'

-- the timer of a call runs
unfoldable pub time_out : ℕ → Transport → Transport
time_out i t = if (t.calls i).armed then settle i timed_out t else t

pub data Step : Transport → Transport → Type 0 where
  -- a request id is generated anew, so it is no request's that waits
  request :
      {t : Transport} (id : Text) (writes : Bool)
      → is_empty id ≡ false
      → Dict.get id t.pending ≡ none
      → Step t (stream_request id writes t)
  receive : {t : Transport} (d : Decoded) → Step t (handle_payload d t)
  expire : {t : Transport} (i : ℕ) → i < t.count → Step t (time_out i t)

pub data Reach (s : Transport) : Transport → Type 0 where
  here : Reach s s
  next : {t u : Transport} → Reach s t → Step t u → Reach s u

-- why a unary request fails
pub data RequestError (Fault : Type 0) : Type 0 where
  not_connected : RequestError Fault
  connection_failed : Fault → RequestError Fault
  answered_by_error : ℕ → RequestError Fault

module _ {Fault : Type 0} where
  abbrev pub judge : Outcome Fault Decoded → Outcome (RequestError Fault) ℕ
  judge (err e) = err (connection_failed e)
  judge (ok d) =
      if text_eq d.type_ (codes "ErrorResponse") then err (answered_by_error d.body) else ok d.body

  -- `request`, over whether the connection is connected and what it answers
  unfoldable pub request_unary : Bool → Outcome Fault Decoded → Outcome (RequestError Fault) ℕ
  request_unary is_connected o = if is_connected then judge o else err not_connected
