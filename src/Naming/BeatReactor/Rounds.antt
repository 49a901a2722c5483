-- ===== src/Naming/BeatReactor/Rounds.antt =====
-- Which beats a round of `BeatReactor` sends.
use nacos_sdk_nodejs.Prelude.{
  ℕ, ◌<◌, ◌≡◌, refl, ◌∙◌, ap, true, false, not, ◌||◌, ◌⊎◌, Text, List, [], ◌∷◌, filter,
  if◌then◌else◌, ◌==◌, arith, if_elim, inl, inr,
}
use nacos_sdk_nodejs.Prelude.Dict
use nacos_sdk_nodejs.Prelude.Dict.{Dict}
use nacos_sdk_nodejs.Prelude.Emitter.{has_listener, is_nil}
use nacos_sdk_nodejs.Naming.BeatReactor.{
  Phase, in_round, asleep, stopped, Reactor, build_key, add_beat_info, remove_beat_info, beat,
  beats, start_round, woke_in, next_round, start_beat, new_reactor, answered, woke, close, Step,
  adds, removes, answers, wakes, closes, Reach, here, next,
}

-- the beats of the map
abbrev pub values : Dict ℕ → List ℕ
values [] = []
values ((k, i) ∷ d) = i ∷ values d

-- A beat is flagged exactly while a round waits for it; no round waits while the loop sleeps; and
-- the beats are among those added.
pub record Steady (r : Reactor) : Type 0 where
  pub flagged : (i : ℕ) → r.scheduled i ≡ has_listener i r.waiting
  pub rests : r.phase ≡ asleep → r.waiting ≡ []
  pub known : (i : ℕ) → has_listener i r.waiting ≡ true → i < r.count
  pub kept : (i : ℕ) → has_listener i (values r.dom2beat) ≡ true → i < r.count

has-filter :
    (i j : ℕ) (xs : List ℕ)
    → has_listener j (filter (λ k. not (k == i)) xs) ≡ (if j == i then false else has_listener j xs)
unfolding has_listener
has-filter i j [] = ground arith
has-filter i j (x ∷ xs) = ground (arith, has-filter i j xs)

-- While a round starts, its beats are the flagged ones.
record Starting (r : Reactor) : Type 0 where
  flagged : (i : ℕ) → r.scheduled i ≡ has_listener i r.waiting
  sent : (i : ℕ) → has_listener i r.round ≡ has_listener i r.waiting

beat-Starting : (i : ℕ) (r : Reactor) → Starting r → Starting (beat i r)
unfolding beat has_listener
beat-Starting i r h =
    if_elim Starting (r.scheduled i) _ _ (λ _. h)
      (λ _. record {
        flagged = λ j. ground (arith, h.flagged j);
        sent = λ j. ground (arith, h.sent j);
      })

beat-round :
    (i j : ℕ) (r : Reactor)
    → Starting r
    → has_listener j (beat i r).round ≡ (i == j || has_listener j r.round)
unfolding beat has_listener
beat-round i j r h = ground (arith, h.flagged i, h.sent i, h.sent j)

beats-Starting : (d : Dict ℕ) (r : Reactor) → Starting r → Starting (beats d r)
beats-Starting [] r h = h
beats-Starting ((k, i) ∷ d) r h = beats-Starting d (beat i r) (beat-Starting i r h)

beats-round :
    (d : Dict ℕ) (j : ℕ) (r : Reactor)
    → Starting r
    → has_listener j (beats d r).round ≡ (has_listener j (values d) || has_listener j r.round)
unfolding has_listener
beats-round [] j r h = refl
beats-round ((k, i) ∷ d) j r h =
    ground (arith, beats-round d j (beat i r) (beat-Starting i r h), beat-round i j r h)

beats-count :
    (d : Dict ℕ) (r : Reactor) → ((beats d r).count ≡ r.count) × ((beats d r).dom2beat ≡ r.dom2beat)
unfolding beat
beats-count [] r = (refl, refl)
beats-count ((k, i) ∷ d) r = let h = beats-count d (beat i r) in ground (arith, h)

values-set :
    (k : Text) (c i : ℕ) (d : Dict ℕ)
    → has_listener i (values (Dict.set k c d)) ≡ true
    → (i ≡ c) ⊎ (has_listener i (values d) ≡ true)
unfolding has_listener Dict.set
values-set k c i [] h = ground arith
values-set k c i ((j, w) ∷ d) h = ground (arith, values-set k c i d)

values-delete :
    (k : Text) (i : ℕ) (d : Dict ℕ)
    → has_listener i (values (Dict.delete k d)) ≡ true
    → has_listener i (values d) ≡ true
unfolding has_listener Dict.delete
values-delete k i [] h = h
values-delete k i ((j, w) ∷ d) h = ground (arith, values-delete k i d)

nil-waiting : (xs : List ℕ) → is_nil xs ≡ true → xs ≡ []
nil-waiting [] h = refl
nil-waiting (x ∷ xs) h = cc

begun :
    (r : Reactor)
    → ((i : ℕ) → r.scheduled i ≡ false)
    → Starting (record r { waiting = []; round = [] })
unfolding has_listener
begun r h = record { flagged = h; sent = λ i. refl }

round-Steady : (r : Reactor) → ((i : ℕ) → r.scheduled i ≡ false) → Steady r → Steady (start_round r)
unfolding start_round has_listener
round-Steady r f h =
    let r' = record r { waiting = []; round = [] } in
    let s = beats-Starting r.dom2beat r' (begun r f) in
    let b = beats-round r.dom2beat in
    let c = beats-count r.dom2beat r' in
    record {
      flagged = s.flagged;
      rests = λ e. nil-waiting _ (ground arith);
      known = λ i e. ground (arith, s.sent i, b i r' (begun r f), h.kept i, c);
      kept = λ i e. ground (arith, h.kept i, c);
    }

quiet : (r : Reactor) → Steady r → r.phase ≡ asleep → (i : ℕ) → r.scheduled i ≡ false
unfolding has_listener
quiet r h e i = h.flagged i ∙ ap (has_listener i) (h.rests e)

next_round-Steady :
    (r : Reactor) → ((i : ℕ) → r.scheduled i ≡ false) → Steady r → Steady (next_round r)
unfolding next_round
next_round-Steady r f h =
    if_elim Steady r.is_closed _ _
      (λ _. record { flagged = h.flagged; rests = λ q. cc; known = h.known; kept = h.kept })
      (λ _. round-Steady r f h)

woke-Steady : (p : Phase) (r : Reactor) → r.phase ≡ p → Steady r → Steady (woke_in p r)
woke-Steady asleep r e h = next_round-Steady r (quiet r h e) h
woke-Steady in_round r e h = h
woke-Steady stopped r e h = h

answered-Steady : (i n : ℕ) (r : Reactor) → Steady r → Steady (answered i n r)
unfolding answered
answered-Steady i n r h =
    if_elim Steady (has_listener i r.waiting) _ _
      (λ _. record {
        flagged = λ j. ground (arith, h.flagged j, has-filter i j r.waiting);
        rests = λ e. nil-waiting _ (ground arith);
        known = λ j e. ground (arith, h.known j, has-filter i j r.waiting);
        kept = h.kept;
      })
      (λ _. h)

Step-Steady : {r u : Reactor} → Step r u → Steady r → Steady u
unfolding add_beat_info remove_beat_info woke close has_listener
Step-Steady (adds {r} s b) h = record {
  flagged = λ i. ground (arith, h.flagged i, h.known i);
  rests = h.rests;
  known = λ i e. omega (arith, h.known i e);
  kept = λ i e. elim (values-set (build_key s b.ip b.port) r.count i r.dom2beat e) [
    | inl q ↦ omega (arith, q)
    | inr q ↦ omega (arith, h.kept i q)
  ];
}
Step-Steady (removes {r} s ip port) h = record {
  flagged = h.flagged;
  rests = h.rests;
  known = h.known;
  kept = λ i e. h.kept i (values-delete (build_key s ip port) i r.dom2beat e);
}
Step-Steady (answers {r} i n) h = answered-Steady i n r h
Step-Steady (wakes {r}) h = woke-Steady r.phase r refl h
Step-Steady (closes {r}) h = record {
  flagged = h.flagged;
  rests = h.rests;
  known = h.known;
  kept = λ i e. cc;
}

-- Whatever happens to a new reactor, a beat is flagged as scheduled exactly while a round waits for
-- its answer.
pub Reach-Steady : {r : Reactor} → Reach new_reactor r → Steady r
unfolding new_reactor start_beat next_round start_round has_listener
Reach-Steady here = record {
  flagged = λ i. refl;
  rests = λ e. refl;
  known = λ i e. cc;
  kept = λ i e. cc;
}
Reach-Steady (next q st) = Step-Steady st (Reach-Steady q)

-- Whatever happened to a new reactor, when it wakes and is not closed, the round sends a beat for
-- every instance that is in the map then, and for no other.
pub round_beats_all :
    {r : Reactor} (i : ℕ)
    → Reach new_reactor r
    → r.phase ≡ asleep
    → r.is_closed ≡ false
    → has_listener i (woke r).round ≡ has_listener i (values r.dom2beat)
unfolding woke next_round start_round has_listener
round_beats_all {r} i q e c =
    let b =
      beats-round r.dom2beat i (record r { waiting = []; round = [] })
        (begun r (quiet r (Reach-Steady q) e)) in
    ground (arith, e, c, b)
