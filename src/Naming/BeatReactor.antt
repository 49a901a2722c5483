-- ===== src/Naming/BeatReactor.antt =====
-- packages/nacos-naming/src/naming/beat_reactor.ts: `BeatReactor`, the heart beats of registered
-- instances over HTTP. A beat is an object, numbered as it is added, so that a round that waits for
-- it and the map share its flag `scheduled`. The server proxy only answers.
pub mod Rounds
use nacos_sdk_nodejs.Prelude.{
  ℕ, suc, Bool, true, false, not, Option, none, some, Text, codes, List, [], ◌∷◌, ◌++◌, filter,
  if◌then◌else◌, ◌==◌, ◌≡◌,
}
use nacos_sdk_nodejs.Prelude.Dict
use nacos_sdk_nodejs.Prelude.Dict.{Dict}
use nacos_sdk_nodejs.Prelude.Emitter.{has_listener, is_nil}
use nacos_sdk_nodejs.Prelude.Numbers.{decimal}

pub record BeatInfo : Type 0 where
  pub service_name : Text
  pub ip : Text
  pub port : ℕ
  pub cluster : Text
  pub weight : ℕ
  pub metadata : Dict Text

-- where the loop of `_startBeat` is: in `await Promise.all(…)`, in `await sleep(…)`, or over
pub data Phase : Type 0 where
  in_round asleep stopped : Phase

pub record Reactor : Type 0 where
  pub is_closed : Bool
  pub is_running : Bool
  pub dom2beat : Dict ℕ
  pub infos : ℕ → BeatInfo
  -- `beatInfo.scheduled`
  pub scheduled : ℕ → Bool
  pub count : ℕ
  pub client_beat_interval : ℕ
  pub phase : Phase
  -- the beats whose answers the round waits for, and all that it has sent
  pub waiting : List ℕ
  pub round : List ℕ

-- `_buildKey`
unfoldable pub build_key : Text → Text → ℕ → Text
build_key dom ip port = dom ++ (codes "#" ++ (ip ++ (codes "#" ++ decimal port)))

unfoldable pub add_beat_info : Text → BeatInfo → Reactor → Reactor
add_beat_info service_name b r = record r {
  dom2beat = Dict.set (build_key service_name b.ip b.port) r.count r.dom2beat;
  infos = λ i. if i == r.count then b else r.infos i;
  scheduled = λ i. if i == r.count then false else r.scheduled i;
  count = suc r.count;
}

unfoldable pub remove_beat_info : Text → Text → ℕ → Reactor → Reactor
remove_beat_info service_name ip port r = record r {
  dom2beat = Dict.delete (build_key service_name ip port) r.dom2beat;
}

abbrev pub set_scheduled : ℕ → Bool → Reactor → Reactor
set_scheduled i b r = record r { scheduled = λ j. if j == i then b else r.scheduled j }

-- `_beat`, until it waits
unfoldable pub beat : ℕ → Reactor → Reactor
beat i r =
    if r.scheduled i
    then r
    else record (set_scheduled i true r) { waiting = i ∷ r.waiting; round = i ∷ r.round }

abbrev pub beats : Dict ℕ → Reactor → Reactor
beats [] r = r
beats ((k, i) ∷ d) r = beats d (beat i r)

-- the round is over when no beat waits
abbrev pub end_round : Reactor → Reactor
end_round r = record r { phase = if is_nil r.waiting then asleep else in_round }

unfoldable pub start_round : Reactor → Reactor
start_round r = end_round (beats r.dom2beat (record r { waiting = []; round = [] }))

-- the test of the loop
unfoldable pub next_round : Reactor → Reactor
next_round r =
    let started = start_round r in
    if r.is_closed then record r { phase = stopped; is_running = false } else started

unfoldable pub start_beat : Reactor → Reactor
start_beat r = if r.is_running then r else next_round (record r { is_running = true })

-- the constructor
unfoldable pub new_reactor : Reactor
new_reactor = start_beat (record {
  is_closed = false;
  is_running = false;
  dom2beat = [];
  infos =
      λ i. record { service_name = []; ip = []; port = 0; cluster = []; weight = 0; metadata = [] };
  scheduled = λ i. false;
  count = 0;
  client_beat_interval = 10000;
  phase = stopped;
  waiting = [];
  round = [];
})

-- the rest of `_beat`, with the interval that the server answers
unfoldable pub answered : ℕ → ℕ → Reactor → Reactor
answered i interval r =
    if has_listener i r.waiting
    then end_round (record (set_scheduled i false r) {
      client_beat_interval = interval;
      waiting = filter (λ j. not (j == i)) r.waiting;
    })
    else r

abbrev pub woke_in : Phase → Reactor → Reactor
woke_in asleep r = next_round r
woke_in in_round r = r
woke_in stopped r = r

-- `sleep` is over
unfoldable pub woke : Reactor → Reactor
woke r = woke_in r.phase r

-- `_close`
unfoldable pub close : Reactor → Reactor
close r = record r { is_closed = true; is_running = false; dom2beat = [] }

pub data Step : Reactor → Reactor → Type 0 where
  adds : {r : Reactor} (s : Text) (b : BeatInfo) → Step r (add_beat_info s b r)
  removes : {r : Reactor} (s ip : Text) (port : ℕ) → Step r (remove_beat_info s ip port r)
  answers : {r : Reactor} (i interval : ℕ) → Step r (answered i interval r)
  wakes : {r : Reactor} → Step r (woke r)
  closes : {r : Reactor} → Step r (close r)

pub data Reach (s : Reactor) : Reactor → Type 0 where
  here : Reach s s
  next : {t u : Reactor} → Reach s t → Step t u → Reach s u
