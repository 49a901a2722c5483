-- ===== src/Examples/Copies.antt =====
-- Local copies in dictionaries, and a server whose answers are a list.
use nacos_sdk_nodejs.Prelude.{
  ◌≡◌, ◌≢◌, refl, false, Option, none, some, Text, text_eq, text_eq_iff, codes, Outcome, ok, err,
  List, [], ◌∷◌, ◌++◌, arith,
}
use nacos_sdk_nodejs.Prelude.Dict
use nacos_sdk_nodejs.Prelude.Dict.{Dict, get-set, get-delete}
use nacos_sdk_nodejs.Config.Recovery.{
  read_config_with_failover, recover, after_fetch, after_failover,
}
use nacos_sdk_nodejs.Examples.Stores.{Saved, save_in, store, store-SnapshotLaws}
use nacos_sdk_nodejs.Config.Recovery.Priority.{read-Meets, Meets, expected}
use nacos_sdk_nodejs.Config.Worker.Env.{Env, get_snapshot_key_encoded, get_snapshot_key_legacy}
use nacos_sdk_nodejs.Config.Worker.Requests.{
  World, http_hooks, get_config, get_request, clear_snapshot, get_snapshot,
}
use nacos_sdk_nodejs.Config.Worker.Copies.{http-Consistent}
use nacos_sdk_nodejs.Config.Worker.Outages.{empty_answer_revives_legacy}
use nacos_sdk_nodejs.Config.Worker.Subscriptions.{subscribes, closes, run, init}
use nacos_sdk_nodejs.Config.Worker.Subscriptions.Delivery.{Inv, run-Inv}

abbrev Answers : Type 0
Answers = List (Outcome Text (Option Text))

abbrev down : Text
down = codes "down"

next_answer : Answers → Outcome Text (Option Text) × Answers
next_answer [] = (err down, [])
next_answer (a ∷ as') = (a, as')

join_all : List Text → Text
join_all [] = []
join_all (p ∷ ps) = p ++ (codes "/" ++ join_all ps)

abbrev env : Env
env = record {
  Store = Saved;
  Net = Answers;
  HttpError = Text;
  error_name = λ e. e;
  error_body = λ e. e;
  snapshot = store;
  request = λ n r. next_answer n;
  join = join_all;
  encode_uri = λ t. b'%' ∷ t;
  decode_uri = λ t. some t;
  md5 = λ t. t;
  unit = codes "u";
  namespace = none;
  app_name = none;
}

abbrev d : Text
d = codes "d"

abbrev g : Text
g = codes "g"

abbrev world : Dict Text → Answers → World env
world saved answers = record {
  files = record { saved = saved; files = [] };
  net = answers;
  reported = [];
}

abbrev v1 : Text
v1 = codes "v1"

abbrev legacy : Text
legacy = get_snapshot_key_legacy env d g

differ : (a b : Text) → text_eq a b ≡ false → a ≢ b
differ a b h = λ e. ground (arith, text_eq_iff a b)

-- A read that the server answers.
read-Meets_example :
    Meets
      (http_hooks env d g)
      (http-Consistent env store-SnapshotLaws d g)
      (read_config_with_failover (http_hooks env d g) (world [] (ok (some v1) ∷ [])))
      (expected none (ok (some v1)) none)
      none
unfolding Dict.get Dict.set Dict.delete text_eq next_answer save_in join_all
    get_snapshot_key_encoded get_snapshot_key_legacy http_hooks http-Consistent get_request
    clear_snapshot get_snapshot get_config read_config_with_failover after_failover after_fetch
    recover
read-Meets_example =
    read-Meets (http_hooks env d g) (http-Consistent env store-SnapshotLaws d g)
      (world [] (ok (some v1) ∷ [])) (λ h. absurd cc)

empty_answer_revives_legacy_example :
    (get_config env d g (get_config env d g (world ((legacy, v1) ∷ []) (ok (some []) ∷ []))).1).0
    ≡ ok (some v1)
unfolding Dict.get Dict.set Dict.delete text_eq next_answer save_in join_all
    get_snapshot_key_encoded get_snapshot_key_legacy http_hooks http-Consistent get_request
    clear_snapshot get_snapshot get_config read_config_with_failover after_failover after_fetch
    recover
empty_answer_revives_legacy_example =
    empty_answer_revives_legacy env store-SnapshotLaws d g
      (world ((legacy, v1) ∷ []) (ok (some []) ∷ [])) v1 down
      (differ (get_snapshot_key_encoded env d g) legacy refl) refl refl refl refl

run-Inv_example : Inv env (run env (init env) (subscribes d g 1 ∷ closes ∷ []))
run-Inv_example = run-Inv env (subscribes d g 1 ∷ closes ∷ [])
