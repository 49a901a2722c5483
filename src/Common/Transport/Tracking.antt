-- ===== src/Common/Transport/Tracking.antt =====
-- A call of `streamRequest` and its answer find each other.
use nacos_sdk_nodejs.Prelude.{
  ℕ, ◌<◌, ◌≡◌, ◌≢◌, true, false, none, some, Text, is_empty, text_eq_iff, arith, Option-cases, inl,
  inr, if_elim,
}
use nacos_sdk_nodejs.Prelude.Dict
use nacos_sdk_nodejs.Prelude.Dict.{Dict}
use nacos_sdk_nodejs.Common.Transport.{
  Settlement, timed_out, not_written, Transport, init, Decoded, settle, settlement_of,
  handle_payload, start_call, stream_request, time_out, Step, request, receive, expire, Reach, here,
  next,
}

-- A call waits exactly as long as it is the one that its request id leads to, and its timer runs
-- as long.
pub record Tracked (t : Transport) : Type 0 where
  pub found :
      (id : Text) (i : ℕ)
      → Dict.get id t.pending ≡ some i
      → (i < t.count) × ((t.calls i).request_id ≡ id) × ((t.calls i).end ≡ none)
  pub waiting :
      (i : ℕ)
      → i < t.count
      → (t.calls i).end ≡ none
      → (Dict.get (t.calls i).request_id t.pending ≡ some i) × ((t.calls i).armed ≡ true)
  pub armed : (i : ℕ) → (t.calls i).armed ≡ true → (t.calls i).end ≡ none

start-Tracked :
    (id : Text) (t : Transport)
    → Dict.get id t.pending ≡ none
    → Tracked t
    → Tracked (start_call id t)
start-Tracked id t n h = record {
  found =
      λ k i e. ground (arith, Dict.get-set id k t.count t.pending, text_eq_iff id k, h.found k i);
  waiting = λ i l e. ground (
    arith,
    Dict.get-set id (t.calls i).request_id t.count t.pending,
    Dict.get-set id id t.count t.pending,
    text_eq_iff id (t.calls i).request_id,
    text_eq_iff id id,
    h.waiting i,
    n,
  );
  armed = λ i e. ground (arith, h.armed i);
}

settle-Tracked :
    (i : ℕ) (s : Settlement) (t : Transport)
    → i < t.count
    → (t.calls i).end ≡ none
    → Tracked t
    → Tracked (settle i s t)
unfolding settle
settle-Tracked i s t l w h = record {
  found = λ k j e. ground (
    arith,
    Dict.get-delete (t.calls i).request_id k t.pending,
    text_eq_iff (t.calls i).request_id k,
    h.found k j,
    h.waiting i l w,
  );
  waiting = λ j m e. ground (
    arith,
    Dict.get-delete (t.calls i).request_id (t.calls j).request_id t.pending,
    text_eq_iff (t.calls i).request_id (t.calls j).request_id,
    h.waiting j,
    h.waiting i l w,
  );
  armed = λ j e. ground (arith, h.armed j);
}

payload-Tracked : (d : Decoded) (t : Transport) → Tracked t → Tracked (handle_payload d t)
unfolding handle_payload
payload-Tracked d t h =
    if_elim Tracked (is_empty d.request_id) _ _ (λ _. h)
      (λ _. elim (Option-cases (Dict.get d.request_id t.pending)) [
        | inl e ↦ rw e h
        | inr (i, e) ↦
            let f = h.found d.request_id i e in
            rw e (settle-Tracked i (settlement_of d) t f.0 f.2 h)
      ])

Step-Tracked : {t u : Transport} → Step t u → Tracked t → Tracked u
unfolding stream_request time_out
Step-Tracked (request {t} id writes n f) h =
    let s = start-Tracked id t f h in
    if_elim Tracked writes _ _ (λ _. s)
      (λ _. settle-Tracked t.count not_written (start_call id t) (omega arith) (ground arith) s)
Step-Tracked (receive {t} d) h = payload-Tracked d t h
Step-Tracked (expire {t} i l) h =
    if_elim Tracked (t.calls i).armed _ _ (λ e. settle-Tracked i timed_out t l (h.armed i e) h)
      (λ _. h)

-- However requests, answers and timers follow each other, a call of `streamRequest` waits exactly
-- as long as its request id leads to it in the map of pending requests, and its timer runs exactly
-- as long: nothing that waits is forgotten, and nothing that is over stays in the map.
pub Reach-Tracked : {t : Transport} → Reach init t → Tracked t
unfolding Dict.get
Reach-Tracked here = record {
  found = λ id i e. ground (arith, e);
  waiting = λ i l e. absurd (omega (arith, l));
  armed = λ i e. ground arith;
}
Reach-Tracked (next r st) = Step-Tracked st (Reach-Tracked r)

-- An answer with the request id of a call that waits settles that call, by the answer's type, and
-- no other call.
answer_settles :
    {t : Transport} (i : ℕ) (d : Decoded)
    → Reach init t
    → i < t.count
    → (t.calls i).end ≡ none
    → d.request_id ≡ (t.calls i).request_id
    → is_empty d.request_id ≡ false
    → let u = handle_payload d t in
      ((u.calls i).end ≡ some (settlement_of d))
      × (Dict.get d.request_id u.pending ≡ none)
      × ((j : ℕ) → j ≢ i → u.calls j ≡ t.calls j)
unfolding handle_payload settle
answer_settles {t} i d r l w e n =
    let f = (Reach-Tracked r).waiting i l w in
    let g = Dict.get-delete_self (t.calls i).request_id t.pending in
    rw (n, e, f.0) (ground (arith, w), g, λ j q. ground (arith, q))

-- A call that waits has a timer that is set, and when no answer comes, the timer ends the call with
-- an error and takes it out of the map.
unanswered_ends :
    {t : Transport} (i : ℕ)
    → Reach init t
    → i < t.count
    → (t.calls i).end ≡ none
    → let u = time_out i t in
      ((u.calls i).end ≡ some timed_out) × (Dict.get (t.calls i).request_id u.pending ≡ none)
unfolding time_out settle
unanswered_ends {t} i r l w =
    let f = (Reach-Tracked r).waiting i l w in
    ground (arith, f.1, w, Dict.get-delete_self (t.calls i).request_id t.pending)
