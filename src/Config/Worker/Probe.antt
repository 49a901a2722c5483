-- ===== src/Config/Worker/Probe.antt =====
-- packages/nacos-config/src/client_worker.ts: the long polling: the probe that `checkServerConfigInfo`
-- sends, `parseUpdateDataIdResponse`, and one round of `checkServerConfigInfo`.
pub mod Listing
use nacos_sdk_nodejs.Prelude.{
  ℕ, Bool, true, false, Option, none, some, Text, Outcome, ok, err, codes, List, [], ◌∷◌, ◌++◌,
  if◌then◌else◌, is_empty, get_or_else, map,
}
use nacos_sdk_nodejs.Prelude.Dict.{Dict}
use nacos_sdk_nodejs.Config.ServerList.{split_on}
use nacos_sdk_nodejs.Config.Worker.Env.{Env, HttpRequest, listener_path, or_default}
use nacos_sdk_nodejs.Config.Worker.Subscriptions.{Item, Worker, SyncResult, sync_configs}

abbrev pub line_separator : ℕ
line_separator = 1

abbrev pub word_separator : ℕ
word_separator = 2

-- the end of an entry, after the md5
abbrev pub tenant_part : Text → Text
tenant_part [] = []
tenant_part (c ∷ cs) = word_separator ∷ c ∷ cs

-- one item in the probe, without the line separator; an md5 that is `null` joins as the empty text
abbrev pub entry : Text → Item → Text
entry tenant item =
    item.data_id
    ++ word_separator
      ∷ (item.group ++ word_separator ∷ (get_or_else [] item.md5 ++ tenant_part tenant))

-- `probeUpdate.join('')`: the items that do not follow a failover file
unfoldable pub probe : Text → Dict Item → Text
probe tenant [] = []
probe tenant ((k, item) ∷ items) =
    let rest = probe tenant items in
    if item.use_failover then rest else entry tenant item ++ line_separator ∷ rest

abbrev pub parse_words : List Text → Option (Text × Text)
parse_words [] = none
parse_words (d ∷ []) = none
parse_words (d ∷ g ∷ words) = some (d, g)

abbrev pub parse_line : Text → Option (Text × Text)
parse_line line = if is_empty line then none else parse_words (split_on word_separator line)

abbrev pub put : Option (Text × Text) → List (Text × Text) → List (Text × Text)
put none us = us
put (some u) us = u ∷ us

unfoldable pub parse_lines : List Text → List (Text × Text)
parse_lines [] = []
parse_lines (line ∷ lines) = put (parse_line line) (parse_lines lines)

-- the loops of `parseUpdateDataIdResponse`, on the decoded text
unfoldable pub parse_update : Text → List (Text × Text)
parse_update text = parse_lines (split_on line_separator text)

module _ (env : Env) where
  -- `parseUpdateDataIdResponse`; none where `decodeURIComponent` throws. `null` is decoded as `null`.
  unfoldable pub parse_update_data_id_response : Option Text → Option (List (Text × Text))
  parse_update_data_id_response content =
      elim (env.decode_uri (get_or_else (codes "null") content)) [
        | none ↦ none
        | some text ↦ some (parse_update text)
      ]

  abbrev pub tenant_of : Text
  tenant_of = or_default env.namespace []

  unfoldable pub listener_request : Text → HttpRequest
  listener_request text = record {
    path = listener_path;
    method = codes "POST";
    encode = false;
    data_as_query_string = false;
    fields =
        (if is_empty tenant_of then [] else (codes "tenant", some tenant_of) ∷ [])
        ++ (codes "Listening-Configs", some text) ∷ [];
    headers = (codes "Long-Pulling-Timeout", codes "30000") ∷ [];
  }

  -- What a round does next: nothing, wait, or send a request.
  pub data Round : Type 0 where
    no_subscription : Round
    wait : Round
    ask : HttpRequest → Round

  abbrev round_for : Text → Round
  round_for [] = wait
  round_for (c ∷ cs) = ask (listener_request (c ∷ cs))

  -- the items of the subscriptions
  abbrev items_from : (ℕ → Item) → Dict ℕ → Dict Item
  items_from heap [] = []
  items_from heap ((k, i) ∷ is) = (k, heap i) ∷ items_from heap is

  -- `checkServerConfigInfo` up to its request, once `checkLocalFailover` has come to its end
  unfoldable pub check_server_config_info : Worker env → Round
  check_server_config_info w = round_for (probe tenant_of (items_from w.heap w.subscriptions))

  -- its first lines: whether it goes on
  unfoldable pub begin_round : Worker env → Option Round
  begin_round w = elim w.subscriptions [ [] ↦ some no_subscription | e ∷ es ↦ none ]
